-- ===== src/Tests/Statistics.antt =====
-- The theorems on running statistics at a window with two points.
use time_series_engine.Base.{◌+ℤ◌, ◌≡◌, refl, true, some, [], ◌∷◌, ℤ, pos, arith, All, length}
use time_series_engine.Types.{Timestamp}
use time_series_engine.Window.{SequenceWindow}
use time_series_engine.Window.Statistics.{finite_numeric_value}
use time_series_engine.Window.Sequence.{update_sequence, prune_one, rebuild_statistics}
use time_series_engine.Window.View.{active, view, IsOrdered}
use time_series_engine.Window.Counted.{IsOrder, Counted, numerics}
use time_series_engine.Window.Figures.{HasFigures, update_sequence-HasFigures}
use time_series_engine.Window.Extremes.{
  AreHeld, prune_one-HasFigures, rebuild_statistics-Counted, fronts-extreme,
}
use time_series_engine.Window.Summary.{
  SequenceWindowStatistics, summary, summarize_window, refreshed,
}
use time_series_engine.Window.Measured.{summarize_window-arrivals}
use time_series_engine.Window.Refinement.{Arrival, apply_arrival, apply_arrivals, arrive_all}
use time_series_engine.Window.Invariant.{IsWindow}
use time_series_engine.Window.Lookup.{find_at, Ascending}
use time_series_engine.Tests.Data.{whole, whole_sums, point_at, hot}

whole-IsOrder : IsOrder whole
unfolding whole
whole-IsOrder = record {
  total = λ a b g h e. ground arith;
  chained = λ a b c p q. ground arith;
  integers = λ i. refl;
}

abbrev measured : SequenceWindow ℤ ℤ
measured = record {
  points = point_at (pos 1) (pos 10) ∷ point_at (pos 3) (pos 30) ∷ [];
  late_points = [];
  active_begin = 0;
  latest_time = some (pos 3);
  statistics_valid = true;
  statistics_count = 2;
  statistics_non_numeric_count = 0;
  statistics_sum = pos 40;
  statistics_minimum = (pos 1, pos 10) ∷ (pos 3, pos 30) ∷ [];
  statistics_maximum = (pos 3, pos 30) ∷ [];
}

measured-Counted : Counted (active measured) measured
unfolding finite_numeric_value whole
measured-Counted = record {
  valid = refl;
  count = refl;
  others = refl;
  minimum = refl;
  maximum = refl;
}

measured-IsOrdered : IsOrdered measured
measured-IsOrdered = record { points = ((omega arith, tt), (tt, tt)); late = tt; keyed = tt }

hot-IsOrdered : IsOrdered hot
hot-IsOrdered = record {
  points = ((omega arith, tt), (tt, tt));
  late = ((omega arith, tt), (tt, tt));
  keyed = (refl, (refl, tt));
}

update_sequence-HasFigures_example :
    HasFigures (update_sequence true (point_at (pos 4) (pos 5) ∷ []) measured).0
update_sequence-HasFigures_example =
    update_sequence-HasFigures whole-IsOrder true (point_at (pos 4) (pos 5) ∷ []) measured
      (omega arith) (λ _. (measured-Counted, refl))

prune_one-HasFigures_example : HasFigures (prune_one (pos 2) measured).0
prune_one-HasFigures_example =
    prune_one-HasFigures (pos 2) measured measured-IsOrdered (λ _. (measured-Counted, refl))

rebuild_statistics-Counted_example :
    Counted (active (rebuild_statistics hot)) (rebuild_statistics hot)
    × ((rebuild_statistics hot).late_points ≡ [])
    × AreHeld hot (active (rebuild_statistics hot))
rebuild_statistics-Counted_example = rebuild_statistics-Counted whole-IsOrder hot hot-IsOrdered

fronts-extreme_example :
    All (λ (e : Timestamp × ℤ). whole.le (pos 10) e.1 ≡ true) (numerics measured.points)
    × All (λ (e : Timestamp × ℤ). whole.le e.1 (pos 30) ≡ true) (numerics measured.points)
fronts-extreme_example =
    fronts-extreme whole-IsOrder measured.points measured (pos 1, pos 10) (pos 3, pos 30)
      ((pos 3, pos 30) ∷ []) [] measured-Counted refl refl

measured-IsWindow : IsWindow measured
measured-IsWindow = record {
  ordered = measured-IsOrdered;
  begin = omega arith;
  reached = (omega arith, (omega arith, tt));
  late_reached = tt;
}

-- A correction that is put aside.
abbrev correction : Arrival ℤ
correction = record { incoming = point_at (pos 2) (pos 5) ∷ []; window_start = pos 0 }

abbrev corrected : SequenceWindow ℤ ℤ
corrected = apply_arrivals (correction ∷ []) measured

abbrev corrected_summary : SequenceWindowStatistics ℤ
corrected_summary = record { count = 3; average = pos 45; maximum = pos 30; minimum = pos 5 }

summarized : summarize_window "s1" (refreshed corrected) ≡ summary corrected_summary
unfolding summarize_window refreshed whole whole_sums apply_arrival ◌+ℤ◌
summarized = refl

summarize_window-arrivals_example :
    Ascending (active (refreshed corrected))
    × ((t : Timestamp)
        → find_at t (active (refreshed corrected)) ≡ arrive_all (correction ∷ []) (view measured) t)
    × (3 ≡ length (active (refreshed corrected)))
    × (length (numerics (active (refreshed corrected))) ≡ length (active (refreshed corrected)))
    × All
        (λ (e : Timestamp × ℤ). whole.le (pos 5) e.1 ≡ true)
        (numerics (active (refreshed corrected)))
    × All
        (λ (e : Timestamp × ℤ). whole.le e.1 (pos 30) ≡ true)
        (numerics (active (refreshed corrected)))
summarize_window-arrivals_example =
    summarize_window-arrivals whole-IsOrder "s1" (correction ∷ []) measured corrected_summary
      measured-IsWindow (λ _. (measured-Counted, refl)) summarized

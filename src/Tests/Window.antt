-- ===== src/Tests/Window.antt =====
-- The window's theorems at a window with two points and two corrections.
use time_series_engine.Base.{
  ◌≡◌, refl, false, none, some, List, [], ◌∷◌, ℤ, pos, ◌<◌, length, arith,
}
use time_series_engine.Types.{RawTimeseriesPoint}
use time_series_engine.Window.Sequence.{
  prepare, flush_late_points, late_point_flush_threshold, update_sequence, prune_one,
}
use time_series_engine.Window.Lookup.{Ascending, find_at}
use time_series_engine.Window.View.{view, flush-view}
use time_series_engine.Window.Invariant.{IsWindow}
use time_series_engine.Window.Update.{update_sequence-view, update_sequence-IsWindow}
use time_series_engine.Window.Prune.{prune_one-view, prune_one-IsWindow}
use time_series_engine.Window.Prepare.{prepare-last}
use time_series_engine.Window.Refinement.{Arrival, arrive_all, apply_arrivals, apply_arrivals-view}
use time_series_engine.Window.Bounded.{update_sequence-late_bound}
use time_series_engine.Tests.Data.{whole, whole_sums, point_at, hot}

abbrev unordered : List (RawTimeseriesPoint ℤ)
unordered = point_at (pos 4) (pos 40) ∷ point_at (pos 1) (pos 11) ∷ point_at (pos 4) (pos 41) ∷ []

abbrev ordered : List (RawTimeseriesPoint ℤ)
ordered = point_at (pos 1) (pos 11) ∷ point_at (pos 4) (pos 41) ∷ []

pub hot-IsWindow : IsWindow hot
hot-IsWindow = record {
  ordered = record {
    points = ((omega arith, tt), (tt, tt));
    late = ((omega arith, tt), (tt, tt));
    keyed = (refl, (refl, tt));
  };
  begin = omega arith;
  reached = (omega arith, (omega arith, tt));
  late_reached = (omega arith, (omega arith, tt));
}

ordered-Ascending : Ascending ordered
ordered-Ascending = ((omega arith, tt), (tt, tt))

flush-view_example : view (flush_late_points hot) (pos 3) ≡ some (point_at (pos 3) (pos 31))
flush-view_example = flush-view hot (pos 3) hot-IsWindow.ordered

prepare-last_example :
    Ascending (prepare unordered)
    × (find_at (pos 4) (prepare unordered) ≡ some (point_at (pos 4) (pos 41)))
prepare-last_example = prepare-last (pos 4) unordered

update_sequence-view_example :
    view (update_sequence false ordered hot).0 (pos 1) ≡ some (point_at (pos 1) (pos 11))
update_sequence-view_example =
    update_sequence-view (pos 1) false ordered hot hot-IsWindow ordered-Ascending

update_sequence-IsWindow_example : IsWindow (update_sequence false ordered hot).0
update_sequence-IsWindow_example =
    update_sequence-IsWindow false ordered hot hot-IsWindow ordered-Ascending

prune_one-view_example : view (prune_one (pos 2) hot).0 (pos 1) ≡ none
prune_one-view_example = prune_one-view (pos 2) (pos 1) hot hot-IsWindow

prune_one-IsWindow_example : IsWindow (prune_one (pos 2) hot).0
prune_one-IsWindow_example = prune_one-IsWindow (pos 2) hot hot-IsWindow

abbrev arrival : Arrival ℤ
arrival = record { incoming = unordered; window_start = pos 2 }

apply_arrivals-view_example :
    view (apply_arrivals (arrival ∷ arrival ∷ []) hot) (pos 4)
    ≡ arrive_all (arrival ∷ arrival ∷ []) (view hot) (pos 4)
apply_arrivals-view_example = apply_arrivals-view (pos 4) (arrival ∷ arrival ∷ []) hot hot-IsWindow

update_sequence-late_bound_example :
    length (update_sequence false ordered hot).0.late_points < late_point_flush_threshold
update_sequence-late_bound_example = update_sequence-late_bound false ordered hot (omega arith)

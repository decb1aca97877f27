-- ===== src/Window/Statistics.antt =====
-- The running statistics of src/window_service.cpp.
use time_series_engine.Base.{
  ◌+◌, ◌-◌, Bool, true, not, Option, none, some, List, [], ◌∷◌, ◌++◌, eqb_ℤ, if◌then◌else◌,
}
use time_series_engine.Floating.{Floating, Extended}
use time_series_engine.Types.{Timestamp, TimeseriesValue, RawTimeseriesPoint}
use time_series_engine.Window.{SequenceWindow}

module _ {D : Type 0} where
  -- An entry in front of what the pops behind it have left.
  unfoldable pub put_back : (D → Bool) → Timestamp × D → List (Timestamp × D) → List (Timestamp × D)
  put_back test (t, d) [] = if test d then [] else (t, d) ∷ []
  put_back test e (e' ∷ rest) = e ∷ e' ∷ rest

  -- `while (!deque.empty() && test(deque.back().second)) deque.pop_back();`
  unfoldable pub pop_back_while : (D → Bool) → List (Timestamp × D) → List (Timestamp × D)
  unfolding put_back
  pop_back_while test [] = []
  pop_back_while test ((t, d) ∷ rest) = put_back test (t, d) (pop_back_while test rest)

  -- `if (!deque.empty() && deque.front().first == time) deque.pop_front();`
  unfoldable pub pop_front_at : Timestamp → List (Timestamp × D) → List (Timestamp × D)
  pop_front_at time [] = []
  pop_front_at time ((t, d) ∷ rest) = if eqb_ℤ t time then rest else (t, d) ∷ rest

module _ {D : Type 0} ⦃f : Floating D⦄ where
  unfoldable pub finite_numeric_value : TimeseriesValue D → Option D
  finite_numeric_value (TimeseriesValue.double d) = if f.is_finite d then some d else none
  finite_numeric_value (TimeseriesValue.int64 i) = some (f.of_int i)
  finite_numeric_value _ = none

module _ {D L : Type 0} ⦃f : Floating D⦄ ⦃x : Extended D L⦄ where
  unfoldable pub reset_statistics : SequenceWindow D L → SequenceWindow D L
  reset_statistics w = record w {
    statistics_valid = true;
    statistics_count = 0;
    statistics_non_numeric_count = 0;
    statistics_sum = x.zero;
    statistics_minimum = [];
    statistics_maximum = [];
  }

  -- A numeric value enters the sum and the two deques.
  unfoldable pub append_value : Option D → Timestamp → SequenceWindow D L → SequenceWindow D L
  unfolding pop_back_while
  append_value none time w = record w {
    statistics_non_numeric_count = w.statistics_non_numeric_count + 1;
  }
  append_value (some value) time w = record w {
    statistics_count = w.statistics_count + 1;
    statistics_sum = x.add w.statistics_sum (x.widen value);
    statistics_minimum =
        pop_back_while (λ d. f.le value d) w.statistics_minimum ++ (time, value) ∷ [];
    statistics_maximum =
        pop_back_while (λ d. f.le d value) w.statistics_maximum ++ (time, value) ∷ [];
  }

  unfoldable pub append_statistic : RawTimeseriesPoint D → SequenceWindow D L → SequenceWindow D L
  unfolding append_value finite_numeric_value
  append_statistic point w =
      if not w.statistics_valid
      then w
      else append_value (finite_numeric_value point.value) point.time w

  -- The counters stop at zero.
  unfoldable pub remove_value : Option D → Timestamp → SequenceWindow D L → SequenceWindow D L
  unfolding pop_front_at
  remove_value none time w = record w {
    statistics_non_numeric_count = w.statistics_non_numeric_count - 1;
  }
  remove_value (some value) time w = record w {
    statistics_count = w.statistics_count - 1;
    statistics_sum = x.sub w.statistics_sum (x.widen value);
    statistics_minimum = pop_front_at time w.statistics_minimum;
    statistics_maximum = pop_front_at time w.statistics_maximum;
  }

  unfoldable pub remove_statistic : RawTimeseriesPoint D → SequenceWindow D L → SequenceWindow D L
  unfolding remove_value finite_numeric_value
  remove_statistic point w =
      if not w.statistics_valid
      then w
      else remove_value (finite_numeric_value point.value) point.time w

  -- The loops over a range of points.
  unfoldable pub append_statistics :
      List (RawTimeseriesPoint D) → SequenceWindow D L → SequenceWindow D L
  unfolding append_statistic
  append_statistics [] w = w
  append_statistics (p ∷ ps) w = append_statistics ps (append_statistic p w)

  unfoldable pub remove_statistics :
      List (RawTimeseriesPoint D) → SequenceWindow D L → SequenceWindow D L
  unfolding remove_statistic
  remove_statistics [] w = w
  remove_statistics (p ∷ ps) w = remove_statistics ps (remove_statistic p w)

-- ===== src/Tests/Engine.antt =====
-- The theorems on the constraint checks at concrete inputs.
use time_series_engine.Base.{
  ℕ, ◌≡◌, ◌↔◌, refl, Bool, true, false, not, Option, none, some, List, [], ◌∷◌, ℤ, pos, is_some,
  get_elem?, ◌+ℤ◌,
}
use time_series_engine.Operation.{ok}
use time_series_engine.Validation.{validate_value}
use time_series_engine.Rules.{check_term}
use time_series_engine.Types.{
  AlignedWindowData, AlignedSample, TimeseriesValue, ConstraintRule, ConstraintAggregation,
  ConstraintCheckResult, OperationCode, WindowData,
}
use time_series_engine.Window.Summary.{WindowStatisticsData}
use time_series_engine.Engine.{ConstraintCheckRange}
use time_series_engine.Engine.Combine.Keys.{SameClause}
use time_series_engine.Engine.Check.{
  check_window_constraints, check_aligned_constraints, check_measured_constraints,
}
use time_series_engine.Engine.Total.{check_constraints-total}
use time_series_engine.Engine.Holds.{Holds}
use time_series_engine.Engine.Aligned.{check_aligned_constraints-Holds}
use time_series_engine.Tests.Data.{whole, whole_sums, point_at}

-- x(t) + x(t + 1) is at most the bound.
abbrev at_most : ℤ → ConstraintRule ℤ
at_most bound = record {
  constraint_id = "c";
  variable_mapping = ("x", "s1") ∷ [];
  lower_bound = none;
  upper_bound = some bound;
  terms =
      record {
        variable = "x";
        coefficient = pos 1;
        sample_offset = 0;
        aggregation = ConstraintAggregation.sample;
      }
      ∷ record {
        variable = "x";
        coefficient = pos 1;
        sample_offset = 1;
        aggregation = ConstraintAggregation.sample;
      }
      ∷ [];
  project_id = "a";
  or_group_id = "g";
}

abbrev sample_at : ℤ → ℤ → AlignedSample ℤ
sample_at t v = record { time = t; values = ("s1", TimeseriesValue.int64 v) ∷ [] }

abbrev samples : AlignedWindowData ℤ
samples = record {
  window_start_time = pos 0;
  window_end_time = pos 9;
  samples =
      sample_at (pos 1) (pos 10) ∷ sample_at (pos 2) (pos 20) ∷ sample_at (pos 3) (pos 30) ∷ [];
  project_id = "a";
}

abbrev raw : WindowData ℤ
raw = record {
  window_start_time = pos 0;
  window_end_time = pos 9;
  sequence_values = ("s1", point_at (pos 1) (pos 10) ∷ point_at (pos 3) (pos 30) ∷ []) ∷ [];
  project_id = "a";
}

abbrev measured : WindowStatisticsData ℤ
measured = record {
  window_start_time = pos 0;
  window_end_time = pos 9;
  sequence_statistics = [];
  project_id = "a";
}

-- One of the two rules of the group is violated at time 2, the other holds.
abbrev rules : List (ConstraintRule ℤ)
rules = at_most (pos 40) ∷ at_most (pos 50) ∷ []

abbrev verdict : ConstraintCheckResult ℤ
verdict = record {
  operation = record {
    code = OperationCode.ok;
    success_count = 4;
    failed_count = 0;
    message = "constraint checks completed; all satisfied";
  };
  project_id = "a";
  evaluated_count = 4;
  pending_count = 0;
  satisfied = true;
  violations = [];
}

check_constraints-total_example :
    (is_some (check_window_constraints whole_sums "a" rules raw none) ≡ true)
    × (is_some (check_aligned_constraints "a" rules samples none) ≡ true)
    × (is_some (check_measured_constraints "a" rules measured) ≡ true)
check_constraints-total_example =
    check_constraints-total whole_sums "a" rules none raw samples measured

check_aligned_constraints-Holds_example : (verdict.satisfied ≡ true) ↔ (
    (i : ℕ) (rule : ConstraintRule ℤ)
    → get_elem? rules i ≡ some rule
    → (j : ℕ) × (other : ConstraintRule ℤ) × (get_elem? rules j ≡ some other)
      × SameClause rule other
      × Holds samples.samples none other)
unfolding check_aligned_constraints whole validate_value check_term ok ◌+ℤ◌
check_aligned_constraints-Holds_example =
    check_aligned_constraints-Holds "a" rules samples none verdict refl refl

abbrev violated : Option (ConstraintCheckResult ℤ) → Bool
violated none = false
violated (some r) = not r.satisfied

-- Alone, the first rule is violated; and not in a range before the violation.
alone_is_violated :
    violated (check_aligned_constraints "a" (at_most (pos 40) ∷ []) samples none) ≡ true
unfolding check_aligned_constraints whole validate_value check_term ok ◌+ℤ◌
alone_is_violated = refl

abbrev early : Option ConstraintCheckRange
early = some (record { start_time = pos 0; end_time = pos 1 })

early_is_kept :
    violated (check_aligned_constraints "a" (at_most (pos 40) ∷ []) samples early) ≡ false
unfolding check_aligned_constraints whole validate_value check_term ok ◌+ℤ◌
early_is_kept = refl

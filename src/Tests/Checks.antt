-- ===== src/Tests/Checks.antt =====
-- The theorems on validation, constraint rules and ingestion at concrete inputs.
use time_series_engine.Base.{◌≡◌, ◌↔◌, refl, none, some, [], ◌∷◌, All, ℤ, pos, ◌+◌, ◌<◌, length}
use time_series_engine.Base.Assoc.{lookup}
use time_series_engine.Base.Checked.{accepted}
use time_series_engine.Types.{
  OperationCode, WindowData, AlignedWindowData, ConstraintRule, ConstraintAggregation,
  TimeseriesValue,
}
use time_series_engine.Validation.{validate_window_data, validate_aligned_window_data}
use time_series_engine.Validation.Accepts.{
  WindowOk, AlignedOk, validate_window_data-WindowOk, validate_aligned_window_data-AlignedOk,
}
use time_series_engine.Rules.{
  check_term, validate_constraint_rule, ConstraintRuleKind, ConstraintRuleProperties,
}
use time_series_engine.Rules.Accepted.{RuleOk, validate_constraint_rule-RuleOk}
use time_series_engine.Registry.{RuntimeConfigRegistry}
use time_series_engine.Registry.Instances.{replace_instance_configs}
use time_series_engine.Ingest.{ingest_and_resolve_data}
use time_series_engine.Ingest.Resolved.{IsResolved, resolved_of, ingest-IsResolved, ingest-counts}
use time_series_engine.Tests.Data.{whole, empty_registry, snapshot, point_at, reading}

abbrev window : WindowData ℤ
window = record {
  window_start_time = pos 0;
  window_end_time = pos 9;
  sequence_values = ("s1", point_at (pos 1) (pos 10) ∷ point_at (pos 3) (pos 30) ∷ []) ∷ [];
  project_id = "a";
}

validate_window_data-WindowOk_example :
    (validate_window_data "a" window ≡ none) ↔ WindowOk "a" window
validate_window_data-WindowOk_example = validate_window_data-WindowOk "a" window

abbrev aligned : AlignedWindowData ℤ
aligned = record {
  window_start_time = pos 0;
  window_end_time = pos 9;
  samples =
      record { time = pos 0; values = ("s1", TimeseriesValue.int64 (pos 1)) ∷ [] }
      ∷ record { time = pos 5; values = ("s1", TimeseriesValue.int64 (pos 2)) ∷ [] }
      ∷ [];
  project_id = "a";
}

validate_aligned_window_data-AlignedOk_example :
    (validate_aligned_window_data "a" aligned ≡ none) ↔ AlignedOk "a" aligned
validate_aligned_window_data-AlignedOk_example = validate_aligned_window_data-AlignedOk "a" aligned

abbrev rule : ConstraintRule ℤ
rule = record {
  constraint_id = "c";
  variable_mapping = ("x", "s1") ∷ [];
  lower_bound = none;
  upper_bound = some (pos 5);
  terms =
      record {
        variable = "x";
        coefficient = pos 1;
        sample_offset = 0;
        aggregation = ConstraintAggregation.sample;
      }
      ∷ record {
        variable = "x";
        coefficient = pos 1;
        sample_offset = 2;
        aggregation = ConstraintAggregation.sample;
      }
      ∷ [];
  project_id = "a";
  or_group_id = "";
}

abbrev rule_result : ConstraintRuleProperties
rule_result = record { kind = ConstraintRuleKind.sample; maximum_sample_offset = 2 }

rule_accepted : validate_constraint_rule rule ≡ accepted rule_result
unfolding validate_constraint_rule whole check_term lookup
rule_accepted = refl

validate_constraint_rule-RuleOk_example : RuleOk rule rule_result
validate_constraint_rule-RuleOk_example =
    validate_constraint_rule-RuleOk rule rule_result rule_accepted

abbrev filled : RuntimeConfigRegistry ℤ
filled = (replace_instance_configs empty_registry snapshot).0

ingest-IsResolved_example :
    let result = ingest_and_resolve_data filled "a" (reading ∷ []) in
    (result.resolved_data.points ≡ resolved_of filled "a" (reading ∷ []))
    × All (IsResolved filled "a") result.resolved_data.points
ingest-IsResolved_example = ingest-IsResolved filled "a" (reading ∷ [])

ingest-counts_example :
    let result = ingest_and_resolve_data filled "a" (reading ∷ reading ∷ []) in
    (result.operation.success_count + result.operation.failed_count ≡ 2)
    × (result.operation.success_count ≡ length result.resolved_data.points)
    × (result.operation.failed_count ≡ 0 → result.operation.code ≡ OperationCode.ok)
    × (0 < result.operation.success_count
        → 0 < result.operation.failed_count
        → result.operation.code ≡ OperationCode.partial_success)
ingest-counts_example = ingest-counts filled "a" (reading ∷ reading ∷ []) (λ e. absurd (cc e))

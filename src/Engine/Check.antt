-- ===== src/Engine/Check.antt =====
-- The `checkConstraints` methods of src/constraint_check_engine.cpp. `none` stands for an access
-- outside a container.
use time_series_engine.Base.{
  ℕ, ltb_ℤ, leb, not, Option, none, some, List, [], ◌∷◌, ◌<>◌, is_nil, length, if◌then◌else◌,
}
use time_series_engine.Base.Assoc.{lookup}
use time_series_engine.Base.Checked.{Checked, accepted, rejected}
use time_series_engine.Floating.{Floating, Extended}
use time_series_engine.Operation.{invalid_argument}
use time_series_engine.Types.{
  ProjectId, WindowData, AlignedWindowData, ConstraintRule, ConstraintCheckResult, OperationResult,
}
use time_series_engine.Rules.{ConstraintRuleProperties, validate_constraint_rule}
use time_series_engine.Rules.Accepted.{is_aggregate}
use time_series_engine.Validation.{
  validate_window_data, validate_aligned_window_data, strictly_increasing,
}
use time_series_engine.Window.Summary.{WindowStatisticsData}
use time_series_engine.Engine.{
  Step, done, failed, fault, ◌>>=◌, with_error, failed_precondition, empty_check, failure,
  mapped_sequences_for_rule, has_single_sequence, ConstraintCheckRange,
}
use time_series_engine.Engine.Combine.{RuleCheckOutcome, combine_rule_outcomes}
use time_series_engine.Engine.Aggregate.{build_window_statistics_for_rule, evaluate_aggregate_rule}
use time_series_engine.Engine.Anchors.{check_points, check_samples}

-- `validateConstraintRule` in front of a rule's check.
abbrev pub validated :
    {A : Type 0}
    → Checked ConstraintRuleProperties
    → (ConstraintRuleProperties → Step OperationResult A)
    → Step OperationResult A
validated (accepted p) k = k p
validated (rejected error) k = failed (invalid_argument error)

module _ {D : Type 0} where
  -- The loop over the rules, which returns at the first failure.
  unfoldable pub check_rules :
      (ConstraintRule D → Step OperationResult (ConstraintCheckResult D))
      → List (ConstraintRule D)
      → Step OperationResult (List (RuleCheckOutcome D))
  check_rules check [] = done []
  check_rules check (rule ∷ rules) = check rule >>= λ result.
      check_rules check rules >>= λ outcomes.
      done (record { rule = rule; result = result } ∷ outcomes)

  -- What is returned behind the loop, or out of it.
  unfoldable pub finish_check :
      ProjectId
      → Step OperationResult (List (RuleCheckOutcome D))
      → Option (ConstraintCheckResult D)
  unfolding failure combine_rule_outcomes
  finish_check project_id (done outcomes) = some (combine_rule_outcomes project_id outcomes)
  finish_check project_id (failed operation) = some (failure operation)
  finish_check project_id fault = none

module _ {D : Type 0} ⦃f : Floating D⦄ where
  -- A rule of samples over one sequence.
  unfoldable pub check_sequence_rule :
      ProjectId
      → WindowData D
      → Option ConstraintCheckRange
      → ConstraintRule D
      → ℕ
      → Step OperationResult (ConstraintCheckResult D)
  unfolding lookup invalid_argument failed_precondition empty_check has_single_sequence
      mapped_sequences_for_rule check_points with_error
  check_sequence_rule project_id w range rule max_offset = elim (has_single_sequence rule) [
    | none ↦ failed (
        failed_precondition
          "WindowData can only check a rule mapped to one sequence; use AlignedWindowData for multi-sequence rules")
    | some id ↦
        (mapped_sequences_for_rule rule >>= λ ids. elim (lookup id w.sequence_values) [
          | none ↦
              failed (invalid_argument ("window data does not contain mapped sequence: " <> id))
          | some points ↦
              if leb (length points) max_offset
              then done (empty_check project_id)
              else with_error
                  (check_points rule ids points max_offset range (empty_check project_id))
        ])
  ]

  unfoldable pub check_aligned_rule :
      ProjectId
      → AlignedWindowData D
      → Option ConstraintCheckRange
      → ConstraintRule D
      → Step OperationResult (ConstraintCheckResult D)
  unfolding invalid_argument failed_precondition empty_check validate_constraint_rule
      mapped_sequences_for_rule check_samples with_error
  check_aligned_rule project_id w range rule = validated (validate_constraint_rule rule) λ p.
      if is_aggregate p.kind
      then failed (
          failed_precondition
            "window aggregate rules require raw window statistics; they cannot be evaluated from aligned samples")
      else (mapped_sequences_for_rule rule >>= λ ids.
          if leb (length w.samples) p.maximum_sample_offset
          then done (empty_check project_id)
          else with_error (
              check_samples rule ids w.samples p.maximum_sample_offset range
                (empty_check project_id)))

  unfoldable pub check_measured_rule :
      ProjectId
      → WindowStatisticsData D
      → ConstraintRule D
      → Step OperationResult (ConstraintCheckResult D)
  unfolding invalid_argument failed_precondition empty_check validate_constraint_rule
      evaluate_aggregate_rule with_error
  check_measured_rule project_id w rule = validated (validate_constraint_rule rule) λ p.
      if not (is_aggregate p.kind)
      then failed (failed_precondition "sample rules cannot be evaluated from window statistics")
      else with_error (evaluate_aggregate_rule rule w (empty_check project_id))

  unfoldable pub check_aligned_constraints :
      ProjectId
      → List (ConstraintRule D)
      → AlignedWindowData D
      → Option ConstraintCheckRange
      → Option (ConstraintCheckResult D)
  unfolding failure invalid_argument strictly_increasing validate_aligned_window_data check_rules
      check_aligned_rule finish_check
  check_aligned_constraints project_id rules w range =
      if is_nil rules
      then some (failure (invalid_argument "constraint rules must not be empty"))
      else if ltb_ℤ w.window_end_time w.window_start_time
      then some
          (failure (invalid_argument "aligned window start time must not be after window end time"))
      else if is_nil w.samples
      then some (failure (invalid_argument "aligned window must contain at least one sample"))
      else if not (strictly_increasing w.samples)
      then some (failure (invalid_argument "aligned sample times must be strictly increasing"))
      else elim (validate_aligned_window_data project_id w) [
        | some error ↦ some (failure (invalid_argument error))
        | none ↦ finish_check project_id (check_rules (check_aligned_rule project_id w range) rules)
      ]

  unfoldable pub check_measured_constraints :
      ProjectId
      → List (ConstraintRule D)
      → WindowStatisticsData D
      → Option (ConstraintCheckResult D)
  unfolding failure invalid_argument check_rules check_measured_rule finish_check
  check_measured_constraints project_id rules w =
      if is_nil rules
      then some (failure (invalid_argument "constraint rules must not be empty"))
      else if ltb_ℤ w.window_end_time w.window_start_time
      then some
          (failure (invalid_argument "window statistics start time must not be after end time"))
      else finish_check project_id (check_rules (check_measured_rule project_id w) rules)

module _ {D L : Type 0} ⦃f : Floating D⦄ (sums : Extended D L) where
  unfoldable pub check_window_rule :
      ProjectId
      → WindowData D
      → Option ConstraintCheckRange
      → ConstraintRule D
      → Step OperationResult (ConstraintCheckResult D)
  unfolding empty_check validate_constraint_rule build_window_statistics_for_rule
      evaluate_aggregate_rule check_sequence_rule with_error
  check_window_rule project_id w range rule = validated (validate_constraint_rule rule) λ p.
      if is_aggregate p.kind
      then with_error (
          build_window_statistics_for_rule sums rule w >>= λ statistics.
          evaluate_aggregate_rule rule statistics (empty_check project_id))
      else check_sequence_rule project_id w range rule p.maximum_sample_offset

  unfoldable pub check_window_constraints :
      ProjectId
      → List (ConstraintRule D)
      → WindowData D
      → Option ConstraintCheckRange
      → Option (ConstraintCheckResult D)
  unfolding failure invalid_argument validate_window_data check_rules check_window_rule finish_check
  check_window_constraints project_id rules w range =
      if is_nil rules
      then some (failure (invalid_argument "constraint rules must not be empty"))
      else if ltb_ℤ w.window_end_time w.window_start_time
      then some (failure (invalid_argument "window start time must not be after window end time"))
      else if is_nil w.sequence_values
      then some (failure (invalid_argument "window data must contain at least one sequence"))
      else elim (validate_window_data project_id w) [
        | some error ↦ some (failure (invalid_argument error))
        | none ↦ finish_check project_id (check_rules (check_window_rule project_id w range) rules)
      ]

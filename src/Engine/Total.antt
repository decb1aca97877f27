-- ===== src/Engine/Total.antt =====
-- The checks of src/constraint_check_engine.cpp return a result on every input.
use time_series_engine.Base.{
  ◌≡◌, refl, inl, inr, true, not, ◌||◌, Option, List, [], ◌∷◌, String, is_some, ltb_ℤ, leb, leb_ℤ,
  ◌==◌, length, if◌then◌else◌, All, arith,
}
use time_series_engine.Base.Assoc.{Table, lookup, has_id}
use time_series_engine.Base.Checked.{Checked-cases}
use time_series_engine.Floating.{Floating, Extended}
use time_series_engine.Types.{
  Timestamp, ProjectId, SequenceId, RawTimeseriesPoint, WindowData, AlignedWindowData,
  ConstraintTerm, ConstraintRule, ConstraintCheckResult, OperationResult,
}
use time_series_engine.Rules.{validate_constraint_rule, ConstraintRuleProperties}
use time_series_engine.Rules.Accepted.{
  is_aggregate, RuleOk, TermIsMapped, validate_constraint_rule-RuleOk,
}
use time_series_engine.Window.Summary.{WindowStatisticsData, SequenceWindowStatistics}
use time_series_engine.Engine.{
  Step, done, failed, fault, ◌>>=◌, access, numeric_value, mapped_sequences_of,
  mapped_sequences_for_rule, ConstraintCheckRange, has_single_sequence, empty_check,
}
use time_series_engine.Engine.Combine.{RuleCheckOutcome}
use time_series_engine.Engine.Aggregate.{
  Measure, measure_points, add_statistics, measure_sequence, measure_terms,
  build_window_statistics_for_rule,
}
use time_series_engine.Engine.Check.{
  check_rules, finish_check, validated, check_sequence_rule, check_aligned_rule,
  check_measured_rule, check_window_rule, check_aligned_constraints, check_measured_constraints,
  check_window_constraints,
}
use time_series_engine.Engine.Ends.{
  Ends, Ends->>=, Ends-with_error, Ends-if, Ends-elim, Ends-access,
}
use time_series_engine.Engine.InBounds.{
  Ends-mapped_sequences_of, mapped_sequences_of-length, Ends-check_points, Ends-check_samples,
  Ends-evaluate_aggregate_rule,
}

module _ {D : Type 0} ⦃f : Floating D⦄ where
  Ends-validated :
      (rule : ConstraintRule D)
      (k : ConstraintRuleProperties → Step OperationResult (ConstraintCheckResult D))
      → ((p : ConstraintRuleProperties) → RuleOk rule p → Ends (k p))
      → Ends (validated (validate_constraint_rule rule) k)
  Ends-validated rule k ends = elim (Checked-cases (validate_constraint_rule rule)) [
    | inl (p, e) ↦ rw (e, validated) (ends p (validate_constraint_rule-RuleOk rule p e))
    | inr (m, e) ↦ rw (e, validated) tt
  ]

  Ends-mapped_for_rule :
      (rule : ConstraintRule D) (p : ConstraintRuleProperties)
      → RuleOk rule p
      → (k : List SequenceId → Step OperationResult (ConstraintCheckResult D))
      → ((ids : List SequenceId) → length ids ≡ length rule.terms → Ends (k ids))
      → Ends (mapped_sequences_for_rule rule >>= k)
  unfolding mapped_sequences_for_rule
  Ends-mapped_for_rule rule p ok k ends =
      Ends->>= (mapped_sequences_of {E = OperationResult} rule.variable_mapping rule.terms) k
        (Ends-mapped_sequences_of OperationResult rule.variable_mapping rule.terms ok.mapped)
        λ ids e. ends ids (mapped_sequences_of-length rule.variable_mapping rule.terms ids e)

  Ends-check_rules :
      (check : ConstraintRule D → Step OperationResult (ConstraintCheckResult D))
      (rules : List (ConstraintRule D))
      → ((rule : ConstraintRule D) → Ends (check rule))
      → Ends (check_rules check rules)
  unfolding check_rules
  Ends-check_rules check [] ends = tt
  Ends-check_rules check (rule ∷ rules) ends =
      Ends->>= (check rule) _ (ends rule) λ r e.
        Ends->>= (check_rules check rules) _ (Ends-check_rules check rules ends) λ rest e'. tt

  is_some-finish_check :
      (project_id : ProjectId) (m : Step OperationResult (List (RuleCheckOutcome D)))
      → Ends m
      → is_some (finish_check project_id m) ≡ true
  unfolding finish_check
  is_some-finish_check project_id (done outcomes) h = refl
  is_some-finish_check project_id (failed operation) h = refl
  is_some-finish_check project_id fault h = elim h [ ]

  Ends-check_aligned_rule :
      (project_id : ProjectId) (w : AlignedWindowData D) (range : Option ConstraintCheckRange)
      (rule : ConstraintRule D)
      → Ends (check_aligned_rule project_id w range rule)
  unfolding check_aligned_rule
  Ends-check_aligned_rule project_id w range rule = Ends-validated rule _ λ p ok.
      Ends-if (is_aggregate p.kind) _ _ tt (
        Ends-mapped_for_rule rule p ok _ λ ids same.
          Ends-if (leb (length w.samples) p.maximum_sample_offset) _ _ tt (
            Ends-with_error _ (
              Ends-check_samples rule ids w.samples p.maximum_sample_offset range _ same
                ok.offsets)))

  Ends-check_measured_rule :
      (project_id : ProjectId) (w : WindowStatisticsData D) (rule : ConstraintRule D)
      → Ends (check_measured_rule project_id w rule)
  unfolding check_measured_rule
  Ends-check_measured_rule project_id w rule = Ends-validated rule _ λ p ok.
      Ends-if (not (is_aggregate p.kind)) _ _ tt
        (Ends-with_error _ (Ends-evaluate_aggregate_rule rule p w (empty_check project_id) ok))

  Ends-check_sequence_rule :
      (project_id : ProjectId) (w : WindowData D) (range : Option ConstraintCheckRange)
      (rule : ConstraintRule D) (p : ConstraintRuleProperties)
      → RuleOk rule p
      → Ends (check_sequence_rule project_id w range rule p.maximum_sample_offset)
  unfolding check_sequence_rule
  Ends-check_sequence_rule project_id w range rule p ok =
      Ends-elim (has_single_sequence rule) _ _ tt λ id. Ends-mapped_for_rule rule p ok _ λ ids same.
        Ends-elim (lookup id w.sequence_values) _ _ tt λ points.
          Ends-if (leb (length points) p.maximum_sample_offset) _ _ tt (
            Ends-with_error _
              (Ends-check_points rule ids points p.maximum_sample_offset range _ same ok.offsets))

module _ {D L : Type 0} ⦃f : Floating D⦄ (sums : Extended D L) where
  Ends-measure_points :
      (start end : Timestamp) (points : List (RawTimeseriesPoint D)) (m : Measure D L)
      → Ends (measure_points sums start end points m)
  unfolding measure_points
  Ends-measure_points start end [] m = tt
  Ends-measure_points start end (p ∷ points) m =
      Ends->>= (if ltb_ℤ p.time start || leb_ℤ end p.time then done m else _) _
        (Ends-if (ltb_ℤ p.time start || leb_ℤ end p.time) _ _ tt
          (Ends-elim (numeric_value p.value) _ _ tt (λ v. tt)))
        λ m' e. Ends-measure_points start end points m'

  Ends-measure_sequence :
      (w : WindowData D) (id : SequenceId) (statistics : Table (SequenceWindowStatistics D))
      → Ends (measure_sequence sums w id statistics)
  unfolding measure_sequence add_statistics
  Ends-measure_sequence w id statistics = Ends-elim (lookup id w.sequence_values) _ _ tt λ points.
      Ends->>= (measure_points sums w.window_start_time w.window_end_time points _) _
        (Ends-measure_points w.window_start_time w.window_end_time points _)
        λ m e.
          Ends-if (m.count == 0) _ _ tt
            (Ends-if (not (f.is_finite (sums.average m.sum m.count))) _ _ tt tt)

  Ends-measure_terms :
      (mapping : Table SequenceId) (w : WindowData D) (terms : List (ConstraintTerm D))
      (seen : List SequenceId) (statistics : Table (SequenceWindowStatistics D))
      → All (TermIsMapped mapping) terms
      → Ends (measure_terms sums mapping w terms seen statistics)
  unfolding measure_terms
  Ends-measure_terms mapping w [] seen statistics all = tt
  Ends-measure_terms mapping w (t ∷ terms) seen statistics all =
      Ends->>= (access (lookup t.variable mapping)) _ (Ends-access String _ all.0.0) λ id e.
        Ends->>= (if has_id id seen then done statistics else measure_sequence sums w id statistics)
          _ (Ends-if (has_id id seen) _ _ tt (Ends-measure_sequence w id statistics))
          λ st e'. Ends-measure_terms mapping w terms _ st all.1

  Ends-check_window_rule :
      (project_id : ProjectId) (w : WindowData D) (range : Option ConstraintCheckRange)
      (rule : ConstraintRule D)
      → Ends (check_window_rule sums project_id w range rule)
  unfolding check_window_rule build_window_statistics_for_rule
  Ends-check_window_rule project_id w range rule = Ends-validated rule _ λ p ok.
      Ends-if (is_aggregate p.kind) _ _
        (Ends-with_error _ (
          Ends->>= (build_window_statistics_for_rule sums rule w) _
            (Ends->>= (measure_terms sums rule.variable_mapping w rule.terms [] []) _
              (Ends-measure_terms rule.variable_mapping w rule.terms [] [] ok.mapped) (λ st e. tt))
            (λ st e. Ends-evaluate_aggregate_rule rule p st (empty_check project_id) ok)))
        (Ends-check_sequence_rule project_id w range rule p ok)

  -- The checks of rules on raw points, on aligned samples and on window statistics return a result for
  -- any rules, range and data: no missing variable is looked up by `at`, and no point or sample is read
  -- past the end.
  pub check_constraints-total :
      (project_id : ProjectId) (rules : List (ConstraintRule D))
      (range : Option ConstraintCheckRange) (w : WindowData D) (a : AlignedWindowData D)
      (s : WindowStatisticsData D)
      → (is_some (check_window_constraints sums project_id rules w range) ≡ true)
        × (is_some (check_aligned_constraints project_id rules a range) ≡ true)
        × (is_some (check_measured_constraints project_id rules s) ≡ true)
  unfolding check_window_constraints check_aligned_constraints check_measured_constraints
  check_constraints-total project_id rules range w a s =
      let raw =
        is_some-finish_check project_id _
          (Ends-check_rules _ rules (Ends-check_window_rule project_id w range)) in
      let aligned =
        is_some-finish_check project_id _
          (Ends-check_rules _ rules (Ends-check_aligned_rule project_id a range)) in
      let measured =
        is_some-finish_check project_id _
          (Ends-check_rules _ rules (Ends-check_measured_rule project_id s)) in
      (ground arith, ground arith, ground arith)

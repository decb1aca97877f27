-- ===== src/Engine/Aligned.antt =====
-- The check of rules on aligned samples, `checkConstraints` of src/constraint_check_engine.cpp,
-- against what the rules say.
use time_series_engine.Base.{
  ℕ, ◌≡◌, ◌↔◌, refl, sym, ap, subst, ◌∙◌, inl, inr, leb, true, Option, some, List, [], get_elem?,
  length, if◌then◌else◌, arith, Bool-cases,
}
use time_series_engine.Base.Checked.{accepted, Checked-cases}
use time_series_engine.Floating.{Floating}
use time_series_engine.Operation.{invalid_argument, make_operation_result}
use time_series_engine.Types.{
  ProjectId, AlignedWindowData, ConstraintRule, ConstraintCheckResult, OperationResult,
  OperationCode,
}
use time_series_engine.Rules.{validate_constraint_rule, ConstraintRuleProperties}
use time_series_engine.Rules.Accepted.{is_aggregate}
use time_series_engine.Validation.{strictly_increasing}
use time_series_engine.Engine.{
  Step, done, failed, fault, ◌>>=◌, with_error, mapped_sequences_for_rule, empty_check, failure,
  ConstraintCheckRange,
}
use time_series_engine.Engine.Ends.{>>=-eq-done}
use time_series_engine.Engine.Anchors.{check_samples}
use time_series_engine.Engine.Combine.{RuleCheckOutcome, combine_rule_outcomes}
use time_series_engine.Engine.Combine.Satisfied.{combine_rule_outcomes-satisfied}
use time_series_engine.Engine.Combine.Keys.{SameClause}
use time_series_engine.Engine.Check.{
  check_rules, finish_check, validated, check_aligned_rule, check_aligned_constraints,
}
use time_series_engine.Engine.Holds.{Holds, value_at-fits}
use time_series_engine.Engine.Visited.{check_samples-Holds}
use time_series_engine.Engine.Outcomes.{
  then_branch, else_branch, with_error-eq-done, Refuses, Refuses-check_aligned_rule,
  Refuses-check_rules, check_rules-IsChecked, outcome_of_rule, rule_of_outcome,
}

module _ {D : Type 0} ⦃f : Floating D⦄ where
  -- A rule of samples behind its validation.
  samples_rule-Holds :
      (project_id : ProjectId) (w : AlignedWindowData D) (range : Option ConstraintCheckRange)
      (rule : ConstraintRule D) (p : ConstraintRuleProperties) (r : ConstraintCheckResult D)
      → strictly_increasing w.samples ≡ true
      → validate_constraint_rule rule ≡ accepted p
      → (mapped_sequences_for_rule {E = OperationResult} rule >>= λ ids.
          if leb (length w.samples) p.maximum_sample_offset
          then done (empty_check project_id)
          else with_error (
              check_samples rule ids w.samples p.maximum_sample_offset range
                (empty_check project_id)))
        ≡ done r
      → (r.violations ≡ []) ↔ Holds w.samples range rule
  unfolding empty_check mapped_sequences_for_rule
  samples_rule-Holds project_id w range rule p r ordered valid e =
      let (ids, mapped, rest) =
        >>=-eq-done (mapped_sequences_for_rule {E = OperationResult} rule) _ e in
      elim (Bool-cases (leb (length w.samples) p.maximum_sample_offset)) [
        | inl short ↦
            let same : empty_check project_id ≡ r = cc (then_branch _ _ _ _ short rest) in
            (
              (λ h a s value at inside read.
                  absurd (ground (arith, value_at-fits rule p w.samples a s value valid at read))),
              (λ h. ap (λ q. q.violations) (sym same)),
            )
        | inr long ↦
            let loop =
              check_samples-Holds w.samples ordered rule ids p range (empty_check project_id) r
                valid mapped (with_error-eq-done _ r (else_branch _ _ _ _ long rest)) in
            ((λ h. (loop.0 h).1), (λ h. loop.1 (refl, h)))
      ]

  check_aligned_rule-Holds :
      (project_id : ProjectId) (w : AlignedWindowData D) (range : Option ConstraintCheckRange)
      (rule : ConstraintRule D) (r : ConstraintCheckResult D)
      → strictly_increasing w.samples ≡ true
      → check_aligned_rule project_id w range rule ≡ done r
      → (r.violations ≡ []) ↔ Holds w.samples range rule
  unfolding check_aligned_rule empty_check mapped_sequences_for_rule
  check_aligned_rule-Holds project_id w range rule r ordered e =
      elim (Checked-cases (validate_constraint_rule rule)) [
        | inl (p, valid) ↦ elim (Bool-cases (is_aggregate p.kind)) [
          | inl aggregate ↦ absurd (cc (rw aggregate at (rw (valid, validated) at e)))
          | inr samples ↦
              samples_rule-Holds project_id w range rule p r ordered valid
                (rw samples at (rw (valid, validated) at e))
        ]
        | inr (m, invalid) ↦ absurd (cc (rw (invalid, validated) at e))
      ]

  done_of_finished :
      (project_id : ProjectId) (m : Step OperationResult (List (RuleCheckOutcome D)))
      (r : ConstraintCheckResult D)
      → finish_check project_id m ≡ some r
      → r.operation.code ≡ OperationCode.ok
      → Refuses m
      → (outcomes : List (RuleCheckOutcome D)) × (m ≡ done outcomes)
        × (combine_rule_outcomes project_id outcomes ≡ r)
  unfolding finish_check failure
  done_of_finished project_id (done outcomes) r e code h = (outcomes, refl, cc)
  done_of_finished project_id (failed operation) r e code h =
      let same : failure operation ≡ r = cc in absurd (h (ap (λ q. q.operation.code) same ∙ code))
  done_of_finished project_id fault r e code h = absurd (cc)

  -- A check that ended without an early return.
  finished_of_ok :
      (project_id : ProjectId) (rules : List (ConstraintRule D)) (w : AlignedWindowData D)
      (range : Option ConstraintCheckRange) (r : ConstraintCheckResult D)
      → check_aligned_constraints project_id rules w range ≡ some r
      → r.operation.code ≡ OperationCode.ok
      → (strictly_increasing w.samples ≡ true)
        × (finish_check project_id (check_rules (check_aligned_rule project_id w range) rules)
            ≡ some r)
  unfolding check_aligned_constraints failure invalid_argument make_operation_result
  finished_of_ok project_id rules w range r e code = (ground arith, ground arith)

  -- An aligned check that reports Ok is satisfied exactly if for each of its rules there is a rule of
  -- the same clause that holds on the samples. Two rules are of one clause if they have the same group,
  -- or both no group and the same identifier. A rule holds if, at each sample in the range from which
  -- all its terms can be read, their weighted sum is within its bounds.
  pub check_aligned_constraints-Holds :
      (project_id : ProjectId) (rules : List (ConstraintRule D)) (w : AlignedWindowData D)
      (range : Option ConstraintCheckRange) (r : ConstraintCheckResult D)
      → check_aligned_constraints project_id rules w range ≡ some r
      → r.operation.code ≡ OperationCode.ok
      → (r.satisfied ≡ true) ↔ (
          (i : ℕ) (rule : ConstraintRule D)
          → get_elem? rules i ≡ some rule
          → (j : ℕ) × (other : ConstraintRule D) × (get_elem? rules j ≡ some other)
            × SameClause rule other
            × Holds w.samples range other)
  check_aligned_constraints-Holds project_id rules w range r e code =
      let check = check_aligned_rule project_id w range in
      let (ordered, finished) = finished_of_ok project_id rules w range r e code in
      let (outcomes, ran, combined) =
        done_of_finished project_id (check_rules check rules) r finished code
          (Refuses-check_rules check rules (Refuses-check_aligned_rule project_id w range)) in
      let pairs = check_rules-IsChecked check rules outcomes ran in
      let met = combine_rule_outcomes-satisfied project_id outcomes in
      (
        (λ h i rule at.
            let (o, here, same) = outcome_of_rule check rules outcomes pairs i rule at in
            let (j, o', there, clause, kept) =
              met.0 (ap (λ q. q.satisfied) combined ∙ h) i o here in
            let (listed, checked) = rule_of_outcome check rules outcomes pairs j o' there in
            (
              j,
              o'.rule,
              listed,
              subst (λ q. SameClause q o'.rule) same clause,
              (check_aligned_rule-Holds project_id w range o'.rule o'.result ordered checked).0
                  kept,
            )),
        (λ h.
            ap (λ q. q.satisfied) (sym combined)
            ∙ met.1 λ i o here.
              let (listed, _) = rule_of_outcome check rules outcomes pairs i o here in
              let (j, other, at, clause, holds) = h i o.rule listed in
              let (o', there, same) = outcome_of_rule check rules outcomes pairs j other at in
              let (_, checked) = rule_of_outcome check rules outcomes pairs j o' there in
              (
                j,
                o',
                there,
                subst (λ q. SameClause o.rule q) (sym same) clause,
                (check_aligned_rule-Holds project_id w range o'.rule o'.result ordered checked).1
                    (subst (Holds w.samples range) (sym same) holds),
              )),
      )

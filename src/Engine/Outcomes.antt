-- ===== src/Engine/Outcomes.antt =====
-- The loop over the rules in src/constraint_check_engine.cpp: its outcomes, and its early returns.
use time_series_engine.Base.{
  ℕ, zero, suc, ◌≡◌, ◌≢◌, refl, sym, ap, subst, ◌∙◌, inl, inr, leb, Bool, true, false, Option, none,
  some, List, [], ◌∷◌, String, get_elem?, length, if◌then◌else◌,
}
use time_series_engine.Base.Assoc.{Table, lookup}
use time_series_engine.Base.Checked.{Checked-cases}
use time_series_engine.Floating.{Floating}
use time_series_engine.Operation.{invalid_argument, make_operation_result}
use time_series_engine.Types.{
  ProjectId, SequenceId, AlignedWindowData, ConstraintTerm, ConstraintRule, ConstraintCheckResult,
  OperationResult, OperationCode,
}
use time_series_engine.Rules.{validate_constraint_rule}
use time_series_engine.Rules.Accepted.{is_aggregate}
use time_series_engine.Engine.{
  Step, done, failed, fault, ◌>>=◌, access, with_error, mapped_sequences_of,
  mapped_sequences_for_rule, failed_precondition, ConstraintCheckRange,
}
use time_series_engine.Engine.Ends.{>>=-eq-done}
use time_series_engine.Engine.Combine.{RuleCheckOutcome}
use time_series_engine.Engine.Check.{check_rules, validated, check_aligned_rule}

pub with_error-eq-done :
    {A : Type 0} (m : Step String A) (a : A) → with_error m ≡ done a → m ≡ done a
unfolding with_error
with_error-eq-done (done b) a e = cc
with_error-eq-done (failed error) a e = absurd (cc)
with_error-eq-done fault a e = absurd (cc)

pub then_branch : {A : Type 0} (b : Bool) (x y z : A) → b ≡ true → (if b then x else y) ≡ z → x ≡ z
then_branch true x y z test e = e
then_branch false x y z test e = absurd (cc)

pub else_branch : {A : Type 0} (b : Bool) (x y z : A) → b ≡ false → (if b then x else y) ≡ z → y ≡ z
else_branch true x y z test e = absurd (cc)
else_branch false x y z test e = e

-- An early return that does not report Ok.
abbrev pub Refuses : {A : Type 0} → Step OperationResult A → Type 0
Refuses (done a) = Unit
Refuses (failed operation) = operation.code ≢ OperationCode.ok
Refuses fault = Unit

pub Refuses->>= :
    {A B : Type 0} (m : Step OperationResult A) (k : A → Step OperationResult B)
    → Refuses m
    → ((a : A) → Refuses (k a))
    → Refuses (m >>= k)
Refuses->>= (done a) k h later = later a
Refuses->>= (failed e) k h later = h
Refuses->>= fault k h later = tt

pub Refuses-if :
    {A : Type 0} (b : Bool) (x y : Step OperationResult A)
    → Refuses x
    → Refuses y
    → Refuses (if b then x else y)
Refuses-if true x y hx hy = hx
Refuses-if false x y hx hy = hy

pub Refuses-with_error : {A : Type 0} (m : Step String A) → Refuses (with_error m)
unfolding with_error invalid_argument make_operation_result
Refuses-with_error (done a) = tt
Refuses-with_error (failed error) = λ e. cc
Refuses-with_error fault = tt

pub Refuses-access : {A : Type 0} (o : Option A) → Refuses (access o)
Refuses-access none = tt
Refuses-access (some a) = tt

module _ {D : Type 0} ⦃f : Floating D⦄ where
  pub Refuses-mapped_of :
      (mapping : Table SequenceId) (terms : List (ConstraintTerm D))
      → Refuses (mapped_sequences_of {E = OperationResult} mapping terms)
  unfolding mapped_sequences_of
  Refuses-mapped_of mapping [] = tt
  Refuses-mapped_of mapping (t ∷ terms) =
      Refuses->>= (access (lookup t.variable mapping)) _ (Refuses-access _) λ id.
        Refuses->>= (mapped_sequences_of {E = OperationResult} mapping terms) _
          (Refuses-mapped_of mapping terms) λ ids. tt

  pub Refuses-mapped :
      (rule : ConstraintRule D) → Refuses (mapped_sequences_for_rule {E = OperationResult} rule)
  unfolding mapped_sequences_for_rule
  Refuses-mapped rule = Refuses-mapped_of rule.variable_mapping rule.terms

  pub Refuses-check_aligned_rule :
      (project_id : ProjectId) (w : AlignedWindowData D) (range : Option ConstraintCheckRange)
      (rule : ConstraintRule D)
      → Refuses (check_aligned_rule project_id w range rule)
  unfolding check_aligned_rule failed_precondition make_operation_result invalid_argument
  Refuses-check_aligned_rule project_id w range rule =
      elim (Checked-cases (validate_constraint_rule rule)) [
        | inl (p, e) ↦
            rw (e, validated)
              (Refuses-if (is_aggregate p.kind) _ _ (λ e. cc)
                (Refuses->>= (mapped_sequences_for_rule {E = OperationResult} rule) _
                  (Refuses-mapped rule)
                  λ ids.
                    Refuses-if (leb (length w.samples) p.maximum_sample_offset) _ _ tt
                      (Refuses-with_error _)))
        | inr (m, e) ↦ rw (e, validated) (λ c. cc)
      ]

  pub Refuses-check_rules :
      (check : ConstraintRule D → Step OperationResult (ConstraintCheckResult D))
      (rules : List (ConstraintRule D))
      → ((rule : ConstraintRule D) → Refuses (check rule))
      → Refuses (check_rules check rules)
  unfolding check_rules
  Refuses-check_rules check [] h = tt
  Refuses-check_rules check (rule ∷ rules) h =
      Refuses->>= (check rule) _ (h rule)
        λ r. Refuses->>= (check_rules check rules) _ (Refuses-check_rules check rules h) λ rest. tt

  -- Each rule has its outcome, in order.
  abbrev pub IsChecked :
      (ConstraintRule D → Step OperationResult (ConstraintCheckResult D))
      → List (ConstraintRule D)
      → List (RuleCheckOutcome D)
      → Type 0
  IsChecked check [] [] = Unit
  IsChecked check [] (o ∷ outcomes) = ⊥
  IsChecked check (rule ∷ rules) [] = ⊥
  IsChecked check (rule ∷ rules) (o ∷ outcomes) =
      (o.rule ≡ rule) × (check rule ≡ done o.result) × IsChecked check rules outcomes

  pub check_rules-IsChecked :
      (check : ConstraintRule D → Step OperationResult (ConstraintCheckResult D))
      (rules : List (ConstraintRule D)) (outcomes : List (RuleCheckOutcome D))
      → check_rules check rules ≡ done outcomes
      → IsChecked check rules outcomes
  unfolding check_rules
  check_rules-IsChecked check [] outcomes e =
      let same : [] ≡ outcomes = cc in subst (IsChecked check []) same tt
  check_rules-IsChecked check (rule ∷ rules) outcomes e =
      let (r, here, rest) = >>=-eq-done (check rule) _ e in
      let (later, found, last) = >>=-eq-done (check_rules check rules) _ rest in
      let same : record { rule = rule; result = r } ∷ later ≡ outcomes = cc last in
      subst (IsChecked check (rule ∷ rules)) same
        (refl, here, check_rules-IsChecked check rules later found)

  pub outcome_of_rule :
      (check : ConstraintRule D → Step OperationResult (ConstraintCheckResult D))
      (rules : List (ConstraintRule D)) (outcomes : List (RuleCheckOutcome D))
      → IsChecked check rules outcomes
      → (i : ℕ) (rule : ConstraintRule D) → get_elem? rules i ≡ some rule
      → (o : RuleCheckOutcome D) × (get_elem? outcomes i ≡ some o) × (o.rule ≡ rule)
  outcome_of_rule check [] outcomes h i rule at = absurd (cc)
  outcome_of_rule check (first ∷ rules) [] h i rule at = elim h [ ]
  outcome_of_rule check (first ∷ rules) (o ∷ outcomes) h zero rule at = (o, refl, h.0 ∙ cc)
  outcome_of_rule check (first ∷ rules) (o ∷ outcomes) h (suc i) rule at =
      outcome_of_rule check rules outcomes h.2 i rule at

  pub rule_of_outcome :
      (check : ConstraintRule D → Step OperationResult (ConstraintCheckResult D))
      (rules : List (ConstraintRule D)) (outcomes : List (RuleCheckOutcome D))
      → IsChecked check rules outcomes
      → (i : ℕ) (o : RuleCheckOutcome D) → get_elem? outcomes i ≡ some o
      → (get_elem? rules i ≡ some o.rule) × (check o.rule ≡ done o.result)
  rule_of_outcome check [] [] h i o at = absurd (cc)
  rule_of_outcome check [] (first ∷ outcomes) h i o at = elim h [ ]
  rule_of_outcome check (rule ∷ rules) [] h i o at = elim h [ ]
  rule_of_outcome check (rule ∷ rules) (first ∷ outcomes) h zero o at =
      let same : first ≡ o = cc at in
      (
        ap some (sym h.0 ∙ ap (λ q. q.rule) same),
        ap check (ap (λ q. q.rule) (sym same) ∙ h.0) ∙ h.1 ∙ ap (λ q. done q.result) same,
      )
  rule_of_outcome check (rule ∷ rules) (first ∷ outcomes) h (suc i) o at =
      rule_of_outcome check rules outcomes h.2 i o at

-- ===== src/Engine/Combine/Satisfied.antt =====
-- When `combineRuleOutcomes` of src/constraint_check_engine.cpp reports that the rules are satisfied.
use time_series_engine.Base.{
  get_elem?-lt, get_elem?-below, ℕ, suc, ◌≡◌, ◌↔◌, refl, sym, ap, subst, ◌∙◌, inl, inr, Bool, true,
  false, Option, some, List, [], ◌∷◌, ◌++◌, is_nil, get_elem?, length, if◌then◌else◌, arith,
  Bool-cases,
}
use time_series_engine.Base.Assoc.{lookup}
use time_series_engine.Types.{ProjectId, ConstraintViolation, ConstraintCheckResult}
use time_series_engine.Engine.Combine.{
  RuleCheckOutcome, clauses_of, violations_at, clause_satisfied, violations_of, check_clauses,
  combine_rule_outcomes,
}
use time_series_engine.Engine.Combine.Entries.{IsGrouped}
use time_series_engine.Engine.Combine.Grouped.{member_keys}
use time_series_engine.Base.{In, All-In}
use time_series_engine.Engine.Combine.Keys.{SameClause, is_nil-eq}
use time_series_engine.Engine.Combine.Gathered.{
  head_or_tail, clause_key-eq, clause_key-SameClause, key_at, key_at-eq, clauses_of-IsGrouped,
}

module _ {D : Type 0} where
  clause_satisfied_iff :
      (outcomes : List (RuleCheckOutcome D)) (members : List ℕ)
      → (clause_satisfied outcomes members ≡ true)
        ↔ ((i : ℕ) × In i members × (violations_at outcomes i ≡ []))
  unfolding clause_satisfied
  clause_satisfied_iff outcomes [] = ((λ h. absurd (cc)), (λ h. absurd (h.1)))
  clause_satisfied_iff outcomes (m ∷ members) =
      let rest = clause_satisfied_iff outcomes members in
      (
        (λ h. elim (Bool-cases (is_nil (violations_at outcomes m))) [
          | inl none_here ↦ (m, inl refl, is_nil-eq _ none_here)
          | inr some_here ↦ let (i, mem, e) = rest.0 (rw some_here at h) in (i, inr mem, e)
        ]),
        (λ h. elim (h.1) [
          | inl here ↦
              ground (arith, ap (λ i. is_nil (violations_at outcomes i)) here, ap is_nil h.2)
          | inr later ↦ ground (arith, rest.1 (h.0, later, h.2))
        ]),
      )

  satisfied_if :
      (here : Bool) (result : ConstraintCheckResult D) (violations : List (ConstraintViolation D))
      → ((if here
            then result
            else record result { satisfied = false; violations = violations }).satisfied
          ≡ true)
        ↔ ((result.satisfied ≡ true) × (here ≡ true))
  satisfied_if true result violations = ((λ h. (h, refl)), (λ h. h.0))
  satisfied_if false result violations = ((λ h. absurd (cc)), (λ h. absurd (cc)))

  check_clauses_iff :
      (outcomes : List (RuleCheckOutcome D)) (clauses : List (List ℕ))
      (result : ConstraintCheckResult D)
      → ((check_clauses outcomes clauses result).satisfied ≡ true) ↔ (
          (result.satisfied ≡ true)
          × ((d : ℕ) (ms : List ℕ)
              → get_elem? clauses d ≡ some ms
              → clause_satisfied outcomes ms ≡ true))
  unfolding check_clauses
  check_clauses_iff outcomes [] result = ((λ h. (h, λ d ms at. absurd (cc))), (λ h. h.0))
  check_clauses_iff outcomes (members ∷ clauses) result =
      let rest = check_clauses_iff outcomes clauses (
        if clause_satisfied outcomes members then result else record result {
          satisfied = false;
          violations = result.violations ++ violations_of outcomes members;
        }) in
      let kept =
        satisfied_if (clause_satisfied outcomes members) result
          (result.violations ++ violations_of outcomes members) in
      (
        (λ h.
            let (now, others) = rest.0 h in
            let (before, here) = kept.0 now in
            (
              before,
              head_or_tail (λ ms. clause_satisfied outcomes ms ≡ true) members clauses here others,
            )),
        (λ (before, all).
            rest.1 (kept.1 (before, all 0 members refl), λ d ms at. all (suc d) ms at)),
      )

  violations_at-eq :
      (outcomes : List (RuleCheckOutcome D)) (i : ℕ) (o : RuleCheckOutcome D)
      → get_elem? outcomes i ≡ some o
      → violations_at outcomes i ≡ o.result.violations
  unfolding violations_at
  violations_at-eq outcomes i o at = rw (at, violations_at) refl

  -- A rule without violations in the clause of an outcome.
  abbrev IsMet : List (RuleCheckOutcome D) → RuleCheckOutcome D → Type 0
  IsMet outcomes o =
      (j : ℕ) × (o' : RuleCheckOutcome D) × (get_elem? outcomes j ≡ some o')
      × SameClause o.rule o'.rule
      × (o'.result.violations ≡ [])

  module _ (outcomes : List (RuleCheckOutcome D)) where
    abbrev all_members : List (List ℕ)
    all_members = (clauses_of outcomes).members

    abbrev grouped : IsGrouped (key_at outcomes) (length outcomes) (clauses_of outcomes)
    grouped = (clauses_of-IsGrouped outcomes).0

    IsMet-of_satisfied :
        ((d : ℕ) (ms : List ℕ)
          → get_elem? all_members d ≡ some ms
          → clause_satisfied outcomes ms ≡ true)
        → (i : ℕ) (o : RuleCheckOutcome D) → get_elem? outcomes i ≡ some o
        → IsMet outcomes o
    IsMet-of_satisfied all i o at =
        let (clause, ms, _, here, mem) = grouped.placed i (get_elem?-lt outcomes i at) in
        let (j, mem', none_there) = (clause_satisfied_iff outcomes ms).0 (all clause ms here) in
        let (k, _, keys) = member_keys _ _ _ grouped clause ms here in
        let (_, key_i) = All-In _ i ms keys mem in
        let (lt, key_j) = All-In _ j ms keys mem' in
        let (o', at') = get_elem?-below outcomes j lt in
        (
          j,
          o',
          at',
          clause_key-eq o.rule o'.rule
              (key_at-eq outcomes i o at ∙ key_i ∙ sym key_j ∙ sym (key_at-eq outcomes j o' at')),
          sym (violations_at-eq outcomes j o' at') ∙ none_there,
        )

    satisfied_of_met :
        ((i : ℕ) (o : RuleCheckOutcome D) → get_elem? outcomes i ≡ some o → IsMet outcomes o)
        → (d : ℕ) (ms : List ℕ) → get_elem? all_members d ≡ some ms
        → clause_satisfied outcomes ms ≡ true
    satisfied_of_met met clause ms at =
        let (i, mem) = (clauses_of-IsGrouped outcomes).1 clause ms at in
        let (k, listed, keys) = member_keys _ _ _ grouped clause ms at in
        let (lt, key_i) = All-In _ i ms keys mem in
        let (o, here) = get_elem?-below outcomes i lt in
        let (j, o', there, same, none_there) = met i o here in
        let (clause', ms', listed', at', mem') = grouped.placed j (get_elem?-lt outcomes j there) in
        let key_j : key_at outcomes j ≡ k =
          sym (key_at-eq outcomes j o' there)
          ∙ sym (clause_key-SameClause o.rule o'.rule same)
          ∙ key_at-eq outcomes i o here
          ∙ key_i in
        let one : ◌≡◌ {A = Option ℕ} (some clause') (some clause) =
          sym listed' ∙ ap (λ q. lookup q (clauses_of outcomes).index) key_j ∙ listed in
        let members_eq : ◌≡◌ {A = Option (List ℕ)} (some ms') (some ms) =
          sym at' ∙ ap (λ d. get_elem? all_members d) (cc one) ∙ at in
        (clause_satisfied_iff outcomes ms).1
          (j, subst (In j) (cc members_eq) mem', violations_at-eq outcomes j o' there ∙ none_there)

  -- The result is satisfied exactly if for each outcome there is one of its clause without violations.
  pub combine_rule_outcomes-satisfied :
      (project_id : ProjectId) (outcomes : List (RuleCheckOutcome D))
      → ((combine_rule_outcomes project_id outcomes).satisfied ≡ true) ↔ (
          (i : ℕ) (o : RuleCheckOutcome D)
          → get_elem? outcomes i ≡ some o
          → (j : ℕ) × (o' : RuleCheckOutcome D) × (get_elem? outcomes j ≡ some o')
            × SameClause o.rule o'.rule
            × (o'.result.violations ≡ []))
  unfolding combine_rule_outcomes
  combine_rule_outcomes-satisfied project_id outcomes =
      let checked = check_clauses_iff outcomes (clauses_of outcomes).members _ in
      (
        (λ h. IsMet-of_satisfied outcomes (checked.0 h).1),
        (λ h. checked.1 (refl, satisfied_of_met outcomes h)),
      )

-- ===== src/Engine/Combine/Gathered.antt =====
-- The clauses that `combineRuleOutcomes` of src/constraint_check_engine.cpp forms of its outcomes.
use time_series_engine.Base.{
  ℕ, zero, suc, ◌+◌, ◌≡◌, refl, sym, ap, subst, ◌∙◌, inl, inr, none, some, List, [], ◌∷◌, String,
  is_empty, get_elem?, length, arith, Bool-cases,
}
use time_series_engine.Base.Assoc.{lookup}
use time_series_engine.Types.{ConstraintRule}
use time_series_engine.Engine.Combine.{
  RuleCheckOutcome, Clauses, clause_key, add_to_clause, gather_clauses, clauses_of,
}
use time_series_engine.Engine.Combine.Entries.{IsGrouped}
use time_series_engine.Engine.Combine.Grouped.{
  HasMembers, add_to_clause-IsGrouped, add_to_clause-HasMembers,
}
use time_series_engine.Engine.Combine.Keys.{SameClause, is_empty-eq, tagged_eq, tags_differ}

pub head_or_tail :
    (P : List ℕ → Type 0) (m : List ℕ) (clauses : List (List ℕ))
    → P m
    → ((d : ℕ) (ms : List ℕ) → get_elem? clauses d ≡ some ms → P ms)
    → (d : ℕ) (ms : List ℕ) → get_elem? (m ∷ clauses) d ≡ some ms
    → P ms
head_or_tail P m clauses first later zero ms at = subst P (cc) first
head_or_tail P m clauses first later (suc d) ms at = later d ms at

module _ {D : Type 0} where
  pub clause_key-eq :
      (rule other : ConstraintRule D) → clause_key rule ≡ clause_key other → SameClause rule other
  unfolding clause_key
  clause_key-eq rule other e = elim (Bool-cases (is_empty rule.or_group_id)) [
    | inl alone ↦ elim (Bool-cases (is_empty other.or_group_id)) [
      | inl alone' ↦ (
        is_empty-eq _ alone ∙ sym (is_empty-eq _ alone'),
        inr (tagged_eq _ _ _ _ (rw (alone, alone') at e)).1,
      )
      | inr grouped ↦ absurd (tags_differ (tagged_eq _ _ _ _ (rw (alone, grouped) at e)).0)
    ]
    | inr grouped ↦ elim (Bool-cases (is_empty other.or_group_id)) [
      | inl alone' ↦ absurd (tags_differ (sym (tagged_eq _ _ _ _ (rw (grouped, alone') at e)).0))
      | inr grouped' ↦ ((tagged_eq _ _ _ _ (rw (grouped, grouped') at e)).1, inl grouped)
    ]
  ]

  pub clause_key-SameClause :
      (rule other : ConstraintRule D) → SameClause rule other → clause_key rule ≡ clause_key other
  unfolding clause_key
  clause_key-SameClause rule other e = ground arith

  abbrev pub key_at : List (RuleCheckOutcome D) → ℕ → String
  key_at outcomes i = elim (get_elem? outcomes i) [ none ↦ "" | some o ↦ clause_key o.rule ]

  pub key_at-eq :
      (outcomes : List (RuleCheckOutcome D)) (i : ℕ) (o : RuleCheckOutcome D)
      → get_elem? outcomes i ≡ some o
      → clause_key o.rule ≡ key_at outcomes i
  key_at-eq outcomes i o at = rw (at, key_at) refl

  pub gather-IsGrouped :
      (key : ℕ → String) (index : ℕ) (outcomes : List (RuleCheckOutcome D)) (c : Clauses)
      → IsGrouped key index c
      → HasMembers c
      → ((j : ℕ) (o : RuleCheckOutcome D)
          → get_elem? outcomes j ≡ some o
          → clause_key o.rule ≡ key (index + j))
      → IsGrouped key (index + length outcomes) (gather_clauses index outcomes c)
        × HasMembers (gather_clauses index outcomes c)
  unfolding gather_clauses
  gather-IsGrouped key index [] c g filled keyed =
      (subst (λ n. IsGrouped key n c) (omega arith) g, filled)
  gather-IsGrouped key index (o ∷ outcomes) c g filled keyed =
      let here : clause_key o.rule ≡ key index = keyed 0 o refl ∙ ap key (omega arith) in
      let (g', filled') =
        gather-IsGrouped key (suc index) outcomes (add_to_clause (clause_key o.rule) index c)
          (subst (λ k. IsGrouped key (suc index) (add_to_clause k index c)) (sym here)
            (add_to_clause-IsGrouped key index c g))
          (add_to_clause-HasMembers (clause_key o.rule) index c filled)
          (λ j o' at. keyed (suc j) o' at ∙ ap key (omega arith)) in
      (
        subst
            (λ n.
              IsGrouped key n
                (gather_clauses (suc index) outcomes (add_to_clause (clause_key o.rule) index c)))
            (omega arith) g',
        filled',
      )

  pub clauses_of-IsGrouped :
      (outcomes : List (RuleCheckOutcome D))
      → IsGrouped (key_at outcomes) (length outcomes) (clauses_of outcomes)
        × HasMembers (clauses_of outcomes)
  unfolding clauses_of lookup
  clauses_of-IsGrouped outcomes =
      let (g, filled) =
        gather-IsGrouped (key_at outcomes) 0 outcomes (record { index = []; members = [] })
          (record {
            indexed = λ k clause e. absurd (cc);
            named = λ clause ms e. absurd (cc);
            placed = λ i lt. absurd (omega arith);
            distinct = λ k j clause e f. absurd (cc);
          })
          (λ clause ms e. absurd (cc)) (λ j o at. ground (arith, key_at-eq outcomes j o at)) in
      (subst (λ n. IsGrouped (key_at outcomes) n (clauses_of outcomes)) (omega arith) g, filled)

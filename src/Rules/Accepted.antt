-- ===== src/Rules/Accepted.antt =====
-- What `validateConstraintRule` of src/constraint_rule_helpers.hpp guarantees of a rule that it
-- accepts.
use time_series_engine.Base.{
  ◌≤◌, ◌≡◌, refl, Bool, true, false, ◌||◌, List, [], ◌∷◌, arith, All, ◌≢◌, ◌⊎◌, subst, is_some,
  is_empty, inl, inr,
}
use time_series_engine.Base.Assoc.{Table, contains}
use time_series_engine.Floating.{Floating}
use time_series_engine.Types.{SequenceId, ConstraintTerm, ConstraintRule}
use time_series_engine.Rules.{
  ConstraintRuleKind, ConstraintRuleProperties, Scan, initial_scan, is_window_aggregation,
  check_term, scan_terms, rule_properties, validate_constraint_rule,
}
use time_series_engine.Base.Checked.{accepted, >>=-eq-accepted, Checked-cases}

abbrev pub is_aggregate : ConstraintRuleKind → Bool
is_aggregate ConstraintRuleKind.sample = false
is_aggregate ConstraintRuleKind.window_aggregate = true

-- The scan has found its first sample term, or has no offset yet.
abbrev IsConsistent : Scan → Type 0
IsConsistent st =
    (st.first_sample_term ≡ true → st.previous_offset ≡ 0)
    × (st.has_sample_term ≡ false → st.previous_offset ≡ 0)

maximum_of_scan :
    (st : Scan) (p : ConstraintRuleProperties)
    → rule_properties st ≡ accepted p
    → IsConsistent st
    → st.previous_offset ≡ p.maximum_sample_offset
unfolding rule_properties
maximum_of_scan st p h c = ground arith

kind_of_scan :
    (st : Scan) (p : ConstraintRuleProperties)
    → rule_properties st ≡ accepted p
    → ((p.kind ≡ ConstraintRuleKind.sample) × (st.has_aggregate_term ≡ false))
      ⊎ ((p.kind ≡ ConstraintRuleKind.window_aggregate) × (st.has_sample_term ≡ false))
unfolding rule_properties
kind_of_scan st p h = ground arith

module _ {D : Type 0} ⦃f : Floating D⦄ where
  -- A term names a mapped variable and has a finite coefficient.
  abbrev pub TermIsMapped : Table SequenceId → ConstraintTerm D → Type 0
  TermIsMapped mapping t = (contains t.variable mapping ≡ true) × (f.is_finite t.coefficient ≡ true)

  record Scanned (mapping : Table SequenceId) (st st' : Scan) (terms : List (ConstraintTerm D))
      : Type 0 where
    mapped : All (TermIsMapped mapping) terms
    offsets : All (λ t. t.sample_offset ≤ st'.previous_offset) terms
    grows : st.previous_offset ≤ st'.previous_offset
    kept : IsConsistent st'
    samples :
        st'.has_sample_term ≡ false
        → (st.has_sample_term ≡ false) × All (λ t. is_window_aggregation t.aggregation ≡ true) terms
    aggregates :
        st'.has_aggregate_term ≡ false
        → (st.has_aggregate_term ≡ false)
          × All (λ t. is_window_aggregation t.aggregation ≡ false) terms

  record TermScanned (mapping : Table SequenceId) (st st' : Scan) (t : ConstraintTerm D)
      : Type 0 where
    mapped : TermIsMapped mapping t
    offset : t.sample_offset ≤ st'.previous_offset
    grows : st.previous_offset ≤ st'.previous_offset
    kept : IsConsistent st'
    samples :
        st'.has_sample_term ≡ false
        → (st.has_sample_term ≡ false) × (is_window_aggregation t.aggregation ≡ true)
    aggregates :
        st'.has_aggregate_term ≡ false
        → (st.has_aggregate_term ≡ false) × (is_window_aggregation t.aggregation ≡ false)

  check_term-TermScanned :
      (mapping : Table SequenceId) (t : ConstraintTerm D) (st st' : Scan)
      → IsConsistent st
      → check_term mapping t st ≡ accepted st'
      → TermScanned mapping st st' t
  unfolding check_term
  check_term-TermScanned mapping t st st' c h = ground arith

  scan_terms-Scanned :
      (mapping : Table SequenceId) (terms : List (ConstraintTerm D)) (st st' : Scan)
      → IsConsistent st
      → scan_terms mapping terms st ≡ accepted st'
      → Scanned mapping st st' terms
  unfolding scan_terms
  scan_terms-Scanned mapping [] st st' c h = ground arith
  scan_terms-Scanned mapping (t ∷ terms) st st' c h =
      let (mid, first, later) =
        >>=-eq-accepted (check_term mapping t st) (scan_terms mapping terms) h in
      let one = check_term-TermScanned mapping t st mid c first in
      let rest = scan_terms-Scanned mapping terms mid st' one.kept later in
      record {
        mapped = (one.mapped, rest.mapped);
        offsets = (omega arith, rest.offsets);
        grows = omega arith;
        kept = rest.kept;
        samples = λ e.
            let (later_none, later_here) = rest.samples e in
            let (none_before, all_here) = one.samples later_none in
            (none_before, (all_here, later_here));
        aggregates = λ e.
            let (later_none, later_here) = rest.aggregates e in
            let (none_before, all_here) = one.aggregates later_none in
            (none_before, (all_here, later_here));
      }

  -- What an accepted rule satisfies.
  pub record RuleOk (rule : ConstraintRule D) (p : ConstraintRuleProperties) : Type 0 where
    pub mapped : All (TermIsMapped rule.variable_mapping) rule.terms
    pub offsets : All (λ t. t.sample_offset ≤ p.maximum_sample_offset) rule.terms
    pub uniform : All (λ t. is_window_aggregation t.aggregation ≡ is_aggregate p.kind) rule.terms
    pub bounded : is_some rule.lower_bound || is_some rule.upper_bound ≡ true
    pub named : is_empty rule.constraint_id ≡ false
    pub has_terms : rule.terms ≢ []

  -- Of an accepted rule the scan went through, and its result gave the properties.
  pub scan_of_accepted :
      (rule : ConstraintRule D) (p : ConstraintRuleProperties)
      → validate_constraint_rule rule ≡ accepted p
      → (st : Scan) × (scan_terms rule.variable_mapping rule.terms initial_scan ≡ accepted st)
        × (rule_properties st ≡ accepted p)
  unfolding validate_constraint_rule
  scan_of_accepted rule p h =
      elim (Checked-cases (scan_terms rule.variable_mapping rule.terms initial_scan)) [
        | inl (st, e) ↦ (st, e, ground arith)
        | inr (m, e) ↦ absurd (ground arith)
      ]

  -- A rule that the checks accept has an identifier, a bound and terms; each term names a mapped
  -- variable and has a finite coefficient, no term looks further than the maximum offset that is
  -- returned, and the terms are all of the returned kind.
  pub validate_constraint_rule-RuleOk :
      (rule : ConstraintRule D) (p : ConstraintRuleProperties)
      → validate_constraint_rule rule ≡ accepted p
      → RuleOk rule p
  unfolding validate_constraint_rule initial_scan
  validate_constraint_rule-RuleOk rule p h =
      let (st, scanned, last) = scan_of_accepted rule p h in
      let s =
        scan_terms-Scanned rule.variable_mapping rule.terms initial_scan st
          ((λ _. refl), (λ _. refl)) scanned in
      record {
        mapped = s.mapped;
        offsets =
            subst (λ m. All (λ t. t.sample_offset ≤ m) rule.terms)
              (maximum_of_scan st p last s.kept) s.offsets;
        uniform = elim (kind_of_scan st p last) [
          | inl (k, e) ↦ rw k (s.aggregates e).1
          | inr (k, e) ↦ rw k (s.samples e).1
        ];
        bounded = ground arith;
        named = ground arith;
        has_terms = ground arith;
      }

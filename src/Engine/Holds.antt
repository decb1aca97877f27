-- ===== src/Engine/Holds.antt =====
-- What a rule says of aligned samples, stated without the loops of src/constraint_check_engine.cpp.
use time_series_engine.Base.{
  get_elem?-lt, ℕ, ◌+◌, ◌<◌, ◌≡◌, refl, ap, subst, ◌∙◌, ◌≤ℤ◌, true, Option, none, some, List, [],
  ◌∷◌, String, get_elem?, length, All, arith,
}
use time_series_engine.Base.Assoc.{Table, lookup}
use time_series_engine.Base.Checked.{accepted, >>=-eq-accepted}
use time_series_engine.Floating.{Floating}
use time_series_engine.Types.{Timestamp, SequenceId, AlignedSample, ConstraintTerm, ConstraintRule}
use time_series_engine.Rules.{
  Scan, check_term, scan_terms, rule_properties, initial_scan, validate_constraint_rule,
  ConstraintRuleProperties,
}
use time_series_engine.Engine.{
  Step, done, failed, fault, ◌>>=◌, access, ResolvedTermValue, numeric_value, mapped_sequences_of,
  resolve_terms, is_within_bounds, ConstraintCheckRange,
}
use time_series_engine.Engine.Ends.{>>=-eq-done}
use time_series_engine.Engine.Anchors.{resolve_sample}
use time_series_engine.Rules.Accepted.{scan_of_accepted}

abbrev pub InRange : Option ConstraintCheckRange → Timestamp → Type 0
InRange none time = Unit
InRange (some range) time = (range.start_time ≤ℤ time) × (time ≤ℤ range.end_time)

access-eq : {E A : Type 0} (o : Option A) (a : A) → access {E = E} o ≡ done a → o ≡ some a
access-eq none a e = absurd (cc)
access-eq (some b) a e = cc

elim_some :
    {A B : Type 0} (o : Option A) (k : A → Option B) (b : B)
    → (elim o as (λ q. Option B) [ none ↦ none | some a ↦ k a ]) ≡ some b
    → (a : A) × (o ≡ some a) × (k a ≡ some b)
elim_some none k b e = absurd (cc)
elim_some (some a) k b e = (a, refl, e)

module _ {D : Type 0} ⦃f : Floating D⦄ where
  -- The number that a term reads at an anchor, if there is one.
  abbrev pub reading : Table SequenceId → List (AlignedSample D) → ℕ → ConstraintTerm D → Option D
  reading mapping samples anchor t = elim (lookup t.variable mapping) [
    | none ↦ none
    | some id ↦ elim (get_elem? samples (anchor + t.sample_offset)) [
      | none ↦ none
      | some s ↦ elim (lookup id s.values) [ none ↦ none | some stored ↦ numeric_value stored ]
    ]
  ]

  -- The weighted sum of the readings, on top of a sum, if every term has one.
  abbrev pub sum_from :
      Table SequenceId → List (AlignedSample D) → ℕ → List (ConstraintTerm D) → D → Option D
  sum_from mapping samples anchor [] sum = some sum
  sum_from mapping samples anchor (t ∷ terms) sum = elim (reading mapping samples anchor t) [
    | none ↦ none
    | some value ↦ sum_from mapping samples anchor terms (f.add sum (f.mul t.coefficient value))
  ]

  abbrev pub value_at : ConstraintRule D → List (AlignedSample D) → ℕ → Option D
  value_at rule samples anchor = sum_from rule.variable_mapping samples anchor rule.terms f.zero

  -- The rule is kept at each sample in the range from which all its terms can be read.
  abbrev pub Holds :
      List (AlignedSample D) → Option ConstraintCheckRange → ConstraintRule D → Type 0
  Holds samples range rule =
      (anchor : ℕ) (s : AlignedSample D) (value : D)
      → get_elem? samples anchor ≡ some s
      → InRange range s.time
      → value_at rule samples anchor ≡ some value
      → is_within_bounds value rule ≡ true

  -- The number behind a resolved term.
  abbrev value_of : {E : Type 0} → Step E (ResolvedTermValue D) → Option D
  value_of (done r) = some r.value
  value_of (failed e) = none
  value_of fault = none

  abbrev pub sum_of : {E : Type 0} → Step E (D × List (ResolvedTermValue D)) → Option D
  sum_of (done r) = some r.0
  sum_of (failed e) = none
  sum_of fault = none

  value_of-resolve_sample :
      (mapping : Table SequenceId) (samples : List (AlignedSample D)) (anchor : ℕ)
      (t : ConstraintTerm D) (id : SequenceId)
      → lookup t.variable mapping ≡ some id
      → value_of (resolve_sample samples t id anchor) ≡ reading mapping samples anchor t
  unfolding resolve_sample
  value_of-resolve_sample mapping samples anchor t id mapped = ground arith

  sum_of-step :
      (m : Step String (ResolvedTermValue D))
      (k : ResolvedTermValue D → Step String (D × List (ResolvedTermValue D))) (next : D → Option D)
      → ((r : ResolvedTermValue D) → sum_of (k r) ≡ next r.value)
      → sum_of (m >>= k) ≡ (elim (value_of m) [ none ↦ none | some value ↦ next value ])
  sum_of-step (done r) k next later = later r
  sum_of-step (failed e) k next later = refl
  sum_of-step fault k next later = refl

  sum_of-last :
      (m : Step String (D × List (ResolvedTermValue D))) (r : ResolvedTermValue D)
      → sum_of (m >>= λ rest. done (rest.0, r ∷ rest.1)) ≡ sum_of m
  sum_of-last (done rest) r = refl
  sum_of-last (failed e) r = refl
  sum_of-last fault r = refl

  mapped_cons :
      {E : Type 0} (mapping : Table SequenceId) (t : ConstraintTerm D)
      (terms : List (ConstraintTerm D)) (ids : List SequenceId)
      → mapped_sequences_of {E = E} mapping (t ∷ terms) ≡ done ids
      → (id : SequenceId) × (later : List SequenceId) × (lookup t.variable mapping ≡ some id)
        × (mapped_sequences_of {E = E} mapping terms ≡ done later)
        × (id ∷ later ≡ ids)
  unfolding mapped_sequences_of
  mapped_cons {E} mapping t terms ids e =
      let (id, at, rest) = >>=-eq-done (access (lookup t.variable mapping)) _ e in
      let (later, found, last) = >>=-eq-done (mapped_sequences_of {E = E} mapping terms) _ rest in
      (id, later, access-eq _ id at, found, cc last)

  pub sum_of-resolve_terms :
      {E : Type 0} (mapping : Table SequenceId) (samples : List (AlignedSample D)) (anchor : ℕ)
      (terms : List (ConstraintTerm D)) (ids : List SequenceId) (sum : D)
      → mapped_sequences_of {E = E} mapping terms ≡ done ids
      → sum_of (resolve_terms (resolve_sample samples) anchor terms ids sum)
        ≡ sum_from mapping samples anchor terms sum
  unfolding resolve_terms
  sum_of-resolve_terms {E} mapping samples anchor [] ids sum e = refl
  sum_of-resolve_terms {E} mapping samples anchor (t ∷ terms) ids sum e =
      let (id, later, at, found, same) = mapped_cons mapping t terms ids e in
      let next = λ (value : D).
        sum_from mapping samples anchor terms (f.add sum (f.mul t.coefficient value)) in
      subst
        (λ js.
          sum_of (resolve_terms (resolve_sample samples) anchor (t ∷ terms) js sum)
          ≡ sum_from mapping samples anchor (t ∷ terms) sum)
        same
        (sum_of-step (resolve_sample samples t id anchor) _ next (λ r.
            sum_of-last
              (resolve_terms (resolve_sample samples) anchor terms later
                (f.add sum (f.mul t.coefficient r.value)))
              r
            ∙ sum_of-resolve_terms mapping samples anchor terms later _ found)
          ∙ ap (λ o. elim o as (λ q. Option D) [ none ↦ none | some value ↦ next value ])
              (value_of-resolve_sample mapping samples anchor t id at))

  -- A sample read past the end gives no value, so the anchor leaves room for every offset.
  sum_from-fits :
      (mapping : Table SequenceId) (samples : List (AlignedSample D)) (anchor : ℕ)
      (terms : List (ConstraintTerm D)) (sum value : D)
      → sum_from mapping samples anchor terms sum ≡ some value
      → All (λ t. anchor + t.sample_offset < length samples) terms
  sum_from-fits mapping samples anchor [] sum value e = tt
  sum_from-fits mapping samples anchor (t ∷ terms) sum value e =
      let (v, read, later) = elim_some (reading mapping samples anchor t) _ value e in
      let (id, mapped, inside) = elim_some (lookup t.variable mapping) _ v read in
      let (s, at, stored) = elim_some (get_elem? samples (anchor + t.sample_offset)) _ v inside in
      (
        get_elem?-lt samples (anchor + t.sample_offset) at,
        sum_from-fits mapping samples anchor terms _ value later,
      )

  -- The maximum of a scan is the offset of a term.
  check_term-fits :
      (mapping : Table SequenceId) (t : ConstraintTerm D) (st st' : Scan) (anchor size : ℕ)
      → check_term mapping t st ≡ accepted st'
      → anchor + st.previous_offset < size
      → anchor + t.sample_offset < size
      → anchor + st'.previous_offset < size
  unfolding check_term
  check_term-fits mapping t st st' anchor size e before here = ground arith

  scan_terms-fits :
      (mapping : Table SequenceId) (terms : List (ConstraintTerm D)) (st st' : Scan)
      (anchor size : ℕ)
      → scan_terms mapping terms st ≡ accepted st'
      → anchor + st.previous_offset < size
      → All (λ t. anchor + t.sample_offset < size) terms
      → anchor + st'.previous_offset < size
  unfolding scan_terms
  scan_terms-fits mapping [] st st' anchor size e before all = ground arith
  scan_terms-fits mapping (t ∷ terms) st st' anchor size e before all =
      let (mid, first, later) =
        >>=-eq-accepted (check_term mapping t st) (scan_terms mapping terms) e in
      scan_terms-fits mapping terms mid st' anchor size later
        (check_term-fits mapping t st mid anchor size first before all.0) all.1

  pub value_at-fits :
      (rule : ConstraintRule D) (p : ConstraintRuleProperties) (samples : List (AlignedSample D))
      (anchor : ℕ) (s : AlignedSample D) (value : D)
      → validate_constraint_rule rule ≡ accepted p
      → get_elem? samples anchor ≡ some s
      → value_at rule samples anchor ≡ some value
      → anchor + p.maximum_sample_offset < length samples
  unfolding initial_scan rule_properties
  value_at-fits rule p samples anchor s value e at read =
      let (st, scanned, last) = scan_of_accepted rule p e in
      let fits =
        scan_terms-fits rule.variable_mapping rule.terms initial_scan st anchor (length samples)
          scanned (ground (arith, get_elem?-lt samples anchor at))
          (sum_from-fits rule.variable_mapping samples anchor rule.terms f.zero value read) in
      ground arith

-- ===== src/Engine/SampleLoop.antt =====
-- The loop over aligned samples in src/constraint_check_engine.cpp counts the anchors that it visits.
use time_series_engine.Base.{
  ℕ, zero, suc, ◌+◌, ◌<◌, ◌≤◌, ◌≡◌, ◌↔◌, refl, sym, ap, subst, ◌∙◌, inl, inr, Bool, true, false,
  Option, some, List, [], String, get_elem?, arith, Option-cases, Bool-cases,
}
use native.Mathlib.Decide.{dec_lt}
use time_series_engine.Floating.{Floating}
use time_series_engine.Types.{
  Timestamp, SequenceId, AlignedSample, ConstraintRule, ConstraintCheckResult,
}
use time_series_engine.Validation.{strictly_increasing}
use time_series_engine.Engine.{
  Step, done, failed, fault, ◌>>=◌, access, ResolvedTermValue, mapped_sequences_of, add_evaluation,
  violation_of, evaluate_rule_at, resolve_terms, is_within_bounds, ConstraintCheckRange,
}
use time_series_engine.Engine.Ends.{>>=-eq-done}
use time_series_engine.Engine.Anchors.{
  after_anchor, anchor_loop, is_past, sample_time_at, resolve_sample,
}
use time_series_engine.Engine.Holds.{value_at, sum_of, sum_of-resolve_terms}
use time_series_engine.Engine.Order.{added, past_later, increasing_le}

module _ {D : Type 0} ⦃f : Floating D⦄ where
  -- A value, if there is one, is within the bounds of the rule.
  abbrev pub IsKept : ConstraintRule D → Option D → Type 0
  IsKept rule read = (value : D) → read ≡ some value → is_within_bounds value rule ≡ true

  pub add_evaluation-violations :
      (rule : ConstraintRule D) (ids : List SequenceId) (time : Timestamp) (value : D)
      (rest : List (ResolvedTermValue D)) (r : ConstraintCheckResult D)
      → ((add_evaluation rule ids time (value, rest) r).violations ≡ [])
        ↔ ((r.violations ≡ []) × (is_within_bounds value rule ≡ true))
  unfolding add_evaluation
  add_evaluation-violations rule ids time value rest r =
      added (is_within_bounds value rule) r.violations (violation_of rule ids time value rest)

  pub after_anchor-violations :
      (rule : ConstraintRule D) (ids : List SequenceId) (time : Timestamp) (retried : String → Bool)
      (m : Step String (D × List (ResolvedTermValue D))) (r next : ConstraintCheckResult D)
      → after_anchor retried r (m >>= λ evaluated. done (add_evaluation rule ids time evaluated r))
        ≡ done next
      → (next.violations ≡ []) ↔ ((r.violations ≡ []) × IsKept rule (sum_of m))
  unfolding after_anchor
  after_anchor-violations rule ids time retried (done (value, rest)) r next e =
      let same : add_evaluation rule ids time (value, rest) r ≡ next = cc in
      let here = add_evaluation-violations rule ids time value rest r in
      (
        (λ h.
            let (before, inside) = here.0 (ap (λ q. q.violations) same ∙ h) in
            (before, λ v read. subst (λ q. is_within_bounds q rule ≡ true) (cc) inside)),
        (λ (before, kept). ap (λ q. q.violations) (sym same) ∙ here.1 (before, kept value refl)),
      )
  after_anchor-violations rule ids time retried (failed error) r next e =
      elim (Bool-cases (retried error)) [
        | inl again ↦
            let same : r.violations ≡ next.violations = ground arith in
            ((λ h. (same ∙ h, λ v read. absurd (cc))), (λ (before, kept). sym same ∙ before))
        | inr given_up ↦ absurd (cc (rw given_up at e))
      ]
  after_anchor-violations rule ids time retried fault r next e = absurd (cc)

  pub sample_of_time :
      (samples : List (AlignedSample D)) (a : ℕ) (time : Timestamp)
      → access {E = String} (sample_time_at samples a) ≡ done time
      → (s : AlignedSample D) × (get_elem? samples a ≡ some s) × (s.time ≡ time)
  unfolding sample_time_at
  sample_of_time samples a time e = elim (Option-cases (get_elem? samples a)) [
    | inl absent ↦ absurd (cc (rw (absent, sample_time_at, access) at e))
    | inr (s, at) ↦ (s, at, cc (rw (at, sample_time_at, access) at e))
  ]

  module _ (rule : ConstraintRule D) (ids : List SequenceId) (samples : List (AlignedSample D))
      (range : Option ConstraintCheckRange) (retried : String → Bool) where
    abbrev pub evaluate :
        Timestamp → ℕ → ConstraintCheckResult D → Step String (ConstraintCheckResult D)
    evaluate time anchor r = evaluate_rule_at rule ids time anchor (resolve_sample samples) r

    -- The rule is kept at a sample, unless it is behind the range.
    abbrev pub KeptAt : ℕ → Type 0
    KeptAt a =
        (s : AlignedSample D)
        → get_elem? samples a ≡ some s
        → is_past s.time range ≡ false
        → IsKept rule (value_at rule samples a)

    abbrev pub KeptOn : ℕ → ℕ → Type 0
    KeptOn first rounds = (a : ℕ) → first ≤ a → a < first + rounds → KeptAt a

    pub evaluate-violations :
        {E : Type 0} (time : Timestamp) (anchor : ℕ) (r next : ConstraintCheckResult D)
        → mapped_sequences_of {E = E} rule.variable_mapping rule.terms ≡ done ids
        → after_anchor retried r (evaluate time anchor r) ≡ done next
        → (next.violations ≡ [])
          ↔ ((r.violations ≡ []) × IsKept rule (value_at rule samples anchor))
    unfolding evaluate_rule_at
    evaluate-violations time anchor r next mapped e =
        subst (λ q. (next.violations ≡ []) ↔ ((r.violations ≡ []) × IsKept rule q))
          (sum_of-resolve_terms rule.variable_mapping samples anchor rule.terms ids f.zero mapped)
          (after_anchor-violations rule ids time retried
            (resolve_terms (resolve_sample samples) anchor rule.terms ids f.zero) r next e)

    -- Behind the first sample that is past the range every sample is.
    pub kept_behind :
        (anchor rounds : ℕ) (s : AlignedSample D)
        → strictly_increasing samples ≡ true
        → get_elem? samples anchor ≡ some s
        → is_past s.time range ≡ true
        → KeptOn anchor rounds
    kept_behind anchor rounds s ordered at past a le lt u at' not_past = absurd (
        past_later range s.time u.time (increasing_le samples anchor a s u ordered at at' le) past
          not_past)

    -- One sample more, in front.
    pub kept_step :
        (anchor rounds : ℕ)
        → KeptAt anchor
        → KeptOn (suc anchor) rounds
        → KeptOn anchor (suc rounds)
    kept_step anchor rounds here later a le lt = elim (dec_lt anchor a) [
      | yes behind ↦ later a (omega arith) (omega arith)
      | no last ↦ let same : anchor ≡ a = omega arith in subst KeptAt same here
    ]

    pub anchor_loop-violations :
        {E : Type 0} (rounds anchor : ℕ) (r last : ConstraintCheckResult D)
        → strictly_increasing samples ≡ true
        → mapped_sequences_of {E = E} rule.variable_mapping rule.terms ≡ done ids
        → anchor_loop (sample_time_at samples) range retried evaluate rounds anchor r ≡ done last
        → (last.violations ≡ []) ↔ ((r.violations ≡ []) × KeptOn anchor rounds)
    unfolding anchor_loop
    anchor_loop-violations zero anchor r last ordered mapped e =
        let same : r ≡ last = cc in
        (
          (λ h. (ap (λ q. q.violations) same ∙ h, λ a le lt. absurd (omega arith))),
          (λ h. ap (λ q. q.violations) (sym same) ∙ h.0),
        )
    anchor_loop-violations (suc rounds) anchor r last ordered mapped e =
        let (time, timed, rest) = >>=-eq-done (access (sample_time_at samples anchor)) _ e in
        let (s, at, same) = sample_of_time samples anchor time timed in
        elim (Bool-cases (is_past time range)) [
          | inl past ↦
              let unchanged : ◌≡◌ {A = Step String (ConstraintCheckResult D)} (done r) (done last) =
                rw past at rest in
              let one : r ≡ last = cc in
              (
                (λ h. (
                  ap (λ q. q.violations) one ∙ h,
                  kept_behind anchor (suc rounds) s ordered at
                      (ap (λ q. is_past q range) same ∙ past),
                )),
                (λ h. ap (λ q. q.violations) (sym one) ∙ h.0),
              )
          | inr inside ↦
              let (next, evaluated, looped) =
                >>=-eq-done (after_anchor retried r (evaluate time anchor r)) _
                  (rw inside at rest) in
              let here = evaluate-violations time anchor r next mapped evaluated in
              let later =
                anchor_loop-violations rounds (suc anchor) next last ordered mapped looped in
              (
                (λ h.
                    let (before, kept) = later.0 h in
                    let (first, now) = here.0 before in
                    (first, kept_step anchor rounds (λ _ _ _. now) kept)),
                (λ (before, all). later.1 (
                  here.1 (
                    before,
                    all anchor (omega arith) (omega arith) s at
                        (ap (λ q. is_past q range) same ∙ inside),
                  ),
                  λ a le lt. all a (omega arith) (omega arith),
                )),
              )
        ]

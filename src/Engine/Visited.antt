-- ===== src/Engine/Visited.antt =====
-- The loop over aligned samples in src/constraint_check_engine.cpp, against the rule at each sample in
-- the range.
use time_series_engine.Base.{
  get_elem?-lt, get_elem?-below, ℕ, ◌-◌, ◌≤◌, ◌≡◌, ◌↔◌, refl, true, false, Option, none, some, List,
  [], get_elem?, length, arith,
}
use native.Mathlib.Decide.{dec_lt}
use time_series_engine.Floating.{Floating}
use time_series_engine.Types.{
  Timestamp, SequenceId, AlignedSample, ConstraintRule, ConstraintCheckResult,
}
use time_series_engine.Base.Checked.{accepted}
use time_series_engine.Rules.{validate_constraint_rule, ConstraintRuleProperties}
use time_series_engine.Validation.{strictly_increasing}
use time_series_engine.Engine.{done, mapped_sequences_of, ConstraintCheckRange}
use time_series_engine.Engine.Anchors.{
  is_past, sample_lower_bound, first_sample, check_samples, is_missing_mapped_sequence_error,
}
use time_series_engine.Engine.Holds.{value_at-fits, InRange, Holds}
use time_series_engine.Engine.Order.{increasing_le, before_lower_bound, at_lower_bound}
use time_series_engine.Engine.SampleLoop.{anchor_loop-violations}

-- From the range as the loop sees it to the range itself.
not_past_of_range :
    (range : Option ConstraintCheckRange) (time : Timestamp)
    → InRange range time
    → is_past time range ≡ false
not_past_of_range none time h = refl
not_past_of_range (some range) time h = ground arith

module _ {D : Type 0} ⦃f : Floating D⦄ (samples : List (AlignedSample D))
    (ordered : strictly_increasing samples ≡ true) where
  first_of_range :
      (range : Option ConstraintCheckRange) (a : ℕ) (s : AlignedSample D)
      → get_elem? samples a ≡ some s
      → InRange range s.time
      → first_sample samples range ≤ a
  unfolding first_sample
  first_of_range none a s at h = omega arith
  first_of_range (some range) a s at h =
      elim (dec_lt a (sample_lower_bound samples range.start_time)) [
        | yes before ↦
            absurd (ground (arith, before_lower_bound samples range.start_time a s at before))
        | no behind ↦ omega arith
      ]

  range_of_visited :
      (range : Option ConstraintCheckRange) (a : ℕ) (s : AlignedSample D)
      → get_elem? samples a ≡ some s
      → first_sample samples range ≤ a
      → is_past s.time range ≡ false
      → InRange range s.time
  unfolding first_sample
  range_of_visited none a s at first h = tt
  range_of_visited (some range) a s at first h =
      let lower = sample_lower_bound samples range.start_time in
      let (u, at') = get_elem?-below samples lower (ground (arith, get_elem?-lt samples a at)) in
      ground (
        arith,
        at_lower_bound samples range.start_time u at',
        increasing_le samples lower a u s ordered at' at first,
      )

  -- The loop over the samples leaves no violation exactly if there was none and the rule holds.
  pub check_samples-Holds :
      {E : Type 0} (rule : ConstraintRule D) (ids : List SequenceId) (p : ConstraintRuleProperties)
      (range : Option ConstraintCheckRange) (r last : ConstraintCheckResult D)
      → validate_constraint_rule rule ≡ accepted p
      → mapped_sequences_of {E = E} rule.variable_mapping rule.terms ≡ done ids
      → check_samples rule ids samples p.maximum_sample_offset range r ≡ done last
      → (last.violations ≡ []) ↔ ((r.violations ≡ []) × Holds samples range rule)
  unfolding check_samples
  check_samples-Holds rule ids p range r last valid mapped e =
      let m = p.maximum_sample_offset in
      let first = first_sample samples range in
      let loop =
        anchor_loop-violations rule ids samples range is_missing_mapped_sequence_error
          (length samples - m - first) first r last ordered mapped e in
      (
        (λ h.
            let (before, kept) = loop.0 h in
            (
              before,
              λ a s value at inside read.
                  kept a (first_of_range range a s at inside)
                    (omega (
                      arith,
                      value_at-fits rule p samples a s value valid at read,
                      first_of_range range a s at inside,
                    ))
                    s at (not_past_of_range range s.time inside) value read,
            )),
        (λ (before, holds). loop.1 (
          before,
          λ a le lt s at not_past value read.
              holds a s value at (range_of_visited range a s at le not_past) read,
        )),
      )

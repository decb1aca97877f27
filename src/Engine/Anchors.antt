-- ===== src/Engine/Anchors.antt =====
-- The loops over the anchors in src/constraint_check_engine.cpp, on raw points and on aligned samples.
use time_series_engine.Base.{
  ℕ, zero, suc, ◌+◌, ◌-◌, ltb_ℤ, Bool, false, not, Option, none, some, List, [], ◌∷◌, String, ◌<>◌,
  str_eq, starts_with, get_elem?, length, if◌then◌else◌,
}
use time_series_engine.Base.Assoc.{lookup}
use time_series_engine.Floating.{Floating}
use time_series_engine.Types.{
  Timestamp, SequenceId, RawTimeseriesPoint, AlignedSample, ConstraintTerm, ConstraintRule,
  ConstraintCheckResult,
}
use time_series_engine.Window.Points.{lower_bound}
use time_series_engine.Engine.{
  Step, done, failed, fault, ◌>>=◌, access, ResolvedTermValue, numeric_value, evaluate_rule_at,
  ConstraintCheckRange,
}

-- `range && time > range->end_time`
abbrev pub is_past : Timestamp → Option ConstraintCheckRange → Bool
is_past time none = false
is_past time (some range) = ltb_ℤ range.end_time time

module _ {D : Type 0} where
  -- How the loop goes on behind an evaluation: an error that will be retried counts as pending.
  unfoldable pub after_anchor :
      (String → Bool)
      → ConstraintCheckResult D
      → Step String (ConstraintCheckResult D)
      → Step String (ConstraintCheckResult D)
  after_anchor retried before (done result) = done result
  after_anchor retried before (failed error) =
      if retried error
      then done (record before { pending_count = before.pending_count + 1 })
      else failed error
  after_anchor retried before fault = fault

  -- The loop, over its rounds left: it runs while `anchor + max_offset < size`.
  unfoldable pub anchor_loop :
      (ℕ → Option Timestamp)
      → Option ConstraintCheckRange
      → (String → Bool)
      → (Timestamp → ℕ → ConstraintCheckResult D → Step String (ConstraintCheckResult D))
      → ℕ
      → ℕ
      → ConstraintCheckResult D
      → Step String (ConstraintCheckResult D)
  unfolding after_anchor
  anchor_loop time_at range retried evaluate zero anchor result = done result
  anchor_loop time_at range retried evaluate (suc rounds) anchor result =
      access (time_at anchor) >>= λ time.
      if is_past time range
      then done result
      else (after_anchor retried result (evaluate time anchor result) >>= λ next.
          anchor_loop time_at range retried evaluate rounds (suc anchor) next)

  -- `points[index].time` and `samples[index].time`
  unfoldable pub point_time : List (RawTimeseriesPoint D) → ℕ → Option Timestamp
  point_time points index = elim (get_elem? points index) [ none ↦ none | some p ↦ some p.time ]

  unfoldable pub sample_time_at : List (AlignedSample D) → ℕ → Option Timestamp
  sample_time_at samples index = elim (get_elem? samples index) [
    | none ↦ none
    | some s ↦ some s.time
  ]

  -- `std::lower_bound` on samples, which are ordered.
  unfoldable pub sample_lower_bound : List (AlignedSample D) → Timestamp → ℕ
  sample_lower_bound [] time = 0
  sample_lower_bound (s ∷ samples) time =
      let rest = sample_lower_bound samples time in if ltb_ℤ s.time time then suc rest else 0

  unfoldable pub first_point : List (RawTimeseriesPoint D) → Option ConstraintCheckRange → ℕ
  unfolding lower_bound
  first_point points none = 0
  first_point points (some range) = lower_bound points range.start_time

  unfoldable pub first_sample : List (AlignedSample D) → Option ConstraintCheckRange → ℕ
  unfolding sample_lower_bound
  first_sample samples none = 0
  first_sample samples (some range) = sample_lower_bound samples range.start_time

unfoldable pub is_missing_mapped_sequence_error : String → Bool
is_missing_mapped_sequence_error error =
    starts_with error "aligned sample is missing mapped sequence: "

module _ {D : Type 0} ⦃f : Floating D⦄ where
  unfoldable pub resolve_point :
      List (RawTimeseriesPoint D)
      → ConstraintTerm D
      → SequenceId
      → ℕ
      → Step String (ResolvedTermValue D)
  unfolding numeric_value
  resolve_point points term id anchor =
      access (get_elem? points (anchor + term.sample_offset)) >>= λ p.
      if not (str_eq id p.sequence_id)
      then failed "window point sequence_id does not match its map key"
      else elim (numeric_value p.value) [
        | none ↦ failed "constraint value must be a finite numeric value"
        | some value ↦ done (record { sample_time = p.time; value = value })
      ]

  unfoldable pub resolve_sample :
      List (AlignedSample D) → ConstraintTerm D → SequenceId → ℕ → Step String (ResolvedTermValue D)
  unfolding numeric_value lookup
  resolve_sample samples term id anchor =
      access (get_elem? samples (anchor + term.sample_offset)) >>= λ s. elim (lookup id s.values) [
        | none ↦ failed ("aligned sample is missing mapped sequence: " <> id)
        | some stored ↦ elim (numeric_value stored) [
          | none ↦ failed "constraint value must be a finite numeric value"
          | some value ↦ done (record { sample_time = s.time; value = value })
        ]
      ]

  unfoldable pub check_points :
      ConstraintRule D
      → List SequenceId
      → List (RawTimeseriesPoint D)
      → ℕ
      → Option ConstraintCheckRange
      → ConstraintCheckResult D
      → Step String (ConstraintCheckResult D)
  unfolding anchor_loop point_time first_point evaluate_rule_at resolve_point
  check_points rule ids points max_offset range result =
      let first = first_point points range in
      anchor_loop (point_time points) range (λ _. false)
        (λ time anchor r. evaluate_rule_at rule ids time anchor (resolve_point points) r)
        (length points - max_offset - first) first result

  unfoldable pub check_samples :
      ConstraintRule D
      → List SequenceId
      → List (AlignedSample D)
      → ℕ
      → Option ConstraintCheckRange
      → ConstraintCheckResult D
      → Step String (ConstraintCheckResult D)
  unfolding anchor_loop sample_time_at first_sample evaluate_rule_at resolve_sample
      is_missing_mapped_sequence_error
  check_samples rule ids samples max_offset range result =
      let first = first_sample samples range in
      anchor_loop (sample_time_at samples) range is_missing_mapped_sequence_error
        (λ time anchor r. evaluate_rule_at rule ids time anchor (resolve_sample samples) r)
        (length samples - max_offset - first) first result

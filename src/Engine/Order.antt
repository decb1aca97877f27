-- ===== src/Engine/Order.antt =====
-- The order of aligned samples, and the part of them that src/constraint_check_engine.cpp visits.
use time_series_engine.Base.{
  ℕ, zero, suc, ◌<◌, ◌≤◌, ◌≡◌, ◌↔◌, refl, subst, inl, inr, ltb_ℤ, ◌≤ℤ◌, Bool, true, false, not,
  Option, none, some, List, [], ◌∷◌, ◌++◌, get_elem?, if◌then◌else◌, arith, Bool-cases,
}
use time_series_engine.Floating.{Floating}
use time_series_engine.Types.{Timestamp, AlignedSample}
use time_series_engine.Validation.{strictly_increasing}
use time_series_engine.Engine.{ConstraintCheckRange}
use time_series_engine.Engine.Anchors.{is_past, sample_lower_bound}

pub added :
    {A : Type 0} (inside : Bool) (xs : List A) (x : A)
    → ((if not inside then xs ++ x ∷ [] else xs) ≡ []) ↔ ((xs ≡ []) × (inside ≡ true))
added true xs x = ((λ h. (h, refl)), (λ h. h.0))
added false [] x = ((λ h. absurd (cc)), (λ h. absurd (cc)))
added false (y ∷ xs) x = ((λ h. absurd (cc)), (λ h. absurd (cc)))

pub past_later :
    (range : Option ConstraintCheckRange) (time later : Timestamp)
    → time ≤ℤ later
    → is_past time range ≡ true
    → is_past later range ≡ false
    → ⊥
past_later none time later le past not_past = cc
past_later (some range) time later le past not_past = ground arith

module _ {D : Type 0} ⦃f : Floating D⦄ where
  -- Samples before others are not later.
  pub increasing_le :
      (samples : List (AlignedSample D)) (i j : ℕ) (s u : AlignedSample D)
      → strictly_increasing samples ≡ true
      → get_elem? samples i ≡ some s
      → get_elem? samples j ≡ some u
      → i ≤ j
      → s.time ≤ℤ u.time
  unfolding strictly_increasing
  increasing_le [] i j s u h at at' le = absurd (cc)
  increasing_le (a ∷ []) zero zero s u h at at' le = ground arith
  increasing_le (a ∷ []) zero (suc j) s u h at at' le = absurd (cc)
  increasing_le (a ∷ []) (suc i) j s u h at at' le = absurd (cc)
  increasing_le (a ∷ b ∷ rest) zero zero s u h at at' le = ground arith
  increasing_le (a ∷ b ∷ rest) zero (suc j) s u h at at' le =
      ground (arith, increasing_le (b ∷ rest) 0 j b u (ground arith) refl at' (omega arith))
  increasing_le (a ∷ b ∷ rest) (suc i) zero s u h at at' le = absurd (omega arith)
  increasing_le (a ∷ b ∷ rest) (suc i) (suc j) s u h at at' le =
      increasing_le (b ∷ rest) i j s u (ground arith) at at' (omega arith)

  -- A sample is before the lower bound exactly if its time is before the start.
  pub before_lower_bound :
      (samples : List (AlignedSample D)) (time : Timestamp) (i : ℕ) (s : AlignedSample D)
      → get_elem? samples i ≡ some s
      → i < sample_lower_bound samples time
      → ltb_ℤ s.time time ≡ true
  unfolding sample_lower_bound
  before_lower_bound [] time i s at lt = absurd (cc)
  before_lower_bound (a ∷ samples) time zero s at lt = ground arith
  before_lower_bound (a ∷ samples) time (suc i) s at lt =
      ground (arith, before_lower_bound samples time i s at)

  pub at_lower_bound :
      (samples : List (AlignedSample D)) (time : Timestamp) (s : AlignedSample D)
      → get_elem? samples (sample_lower_bound samples time) ≡ some s
      → ltb_ℤ s.time time ≡ false
  unfolding sample_lower_bound
  at_lower_bound [] time s at = absurd (cc)
  at_lower_bound (a ∷ samples) time s at = elim (Bool-cases (ltb_ℤ a.time time)) [
    | inl before ↦ at_lower_bound samples time s (rw (before, sample_lower_bound) at at)
    | inr not_before ↦
        let same : a ≡ s = cc (rw (not_before, sample_lower_bound) at at) in
        subst (λ q. ltb_ℤ q.time time ≡ false) same not_before
  ]

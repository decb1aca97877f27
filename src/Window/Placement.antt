-- ===== src/Window/Placement.antt =====
-- One round of the loop of `mergeSortedPoints` in src/window_service.cpp: where a point is put, and
-- what stands before and behind it.
use time_series_engine.Base.{
  suc, ◌≡◌, subst, true, false, List, [], ◌∷◌, ◌++◌, take, drop, All, All-append, ltb_ℤ, eqb_ℤ,
  arith, Bool-cases, inl, inr,
}
use time_series_engine.Types.{Timestamp, RawTimeseriesPoint}
use time_series_engine.Window.Points.{lower_bound, skip_equal}
use time_series_engine.Window.Lookup.{
  first_some, find_at, Above, Ascending, find_at-Above, Above-le, Ascending-drop, All-drop,
  All-take,
}

module _ {D : Type 0} where
  lower_bound-cons_lt :
      (p : RawTimeseriesPoint D) (ps : List (RawTimeseriesPoint D)) (t : Timestamp)
      → ltb_ℤ p.time t ≡ true
      → lower_bound (p ∷ ps) t ≡ suc (lower_bound ps t)
  unfolding lower_bound
  lower_bound-cons_lt p ps t e = rw e

  lower_bound-cons_ge :
      (p : RawTimeseriesPoint D) (ps : List (RawTimeseriesPoint D)) (t : Timestamp)
      → ltb_ℤ p.time t ≡ false
      → lower_bound (p ∷ ps) t ≡ 0
  unfolding lower_bound
  lower_bound-cons_ge p ps t e = rw e

  skip_equal-All {κ} :
      (P : RawTimeseriesPoint D → Type κ) (t : Timestamp) (ps : List (RawTimeseriesPoint D))
      → All P ps
      → All P (skip_equal t ps)
  unfolding skip_equal
  skip_equal-All P t [] a = tt
  skip_equal-All P t (p ∷ ps) a = elim (Bool-cases (eqb_ℤ p.time t)) [
    | inl e ↦ rw e a.1
    | inr e ↦ rw e a
  ]

  skip_equal-Ascending :
      (t : Timestamp) (ps : List (RawTimeseriesPoint D))
      → Ascending ps
      → Ascending (skip_equal t ps)
  unfolding skip_equal
  skip_equal-Ascending t [] a = tt
  skip_equal-Ascending t (p ∷ ps) a = elim (Bool-cases (eqb_ℤ p.time t)) [
    | inl e ↦ rw e a.1
    | inr e ↦ rw e a
  ]

module _ {D : Type 0} (q : RawTimeseriesPoint D) (incoming : List (RawTimeseriesPoint D)) where
  -- What is left behind the place of `q`.
  abbrev pub behind : List (RawTimeseriesPoint D) → List (RawTimeseriesPoint D)
  behind points = skip_equal q.time (drop (lower_bound points q.time) points)

  -- One round: if the rest is merged right, so is the whole.
  pub find_at-placed :
      (u : Timestamp) (points rest : List (RawTimeseriesPoint D))
      → Above q.time incoming
      → find_at u rest ≡ first_some (find_at u incoming) (find_at u (behind points))
      → find_at u (take (lower_bound points q.time) points ++ q ∷ rest)
        ≡ first_some (find_at u (q ∷ incoming)) (find_at u points)
  unfolding lower_bound skip_equal
  find_at-placed u [] rest a h = ground arith
  find_at-placed u (p ∷ points) rest a h = elim (Bool-cases (ltb_ℤ p.time q.time)) [
    | inl e ↦
        let n = lower_bound-cons_lt p points q.time e in
        let ih = find_at-placed u points rest a (
          subst
            (λ k.
              find_at u rest
              ≡ first_some (find_at u incoming)
                  (find_at u (skip_equal q.time (drop k (p ∷ points)))))
            n h) in
        rw n (ground (arith, find_at-Above q.time u incoming a))
    | inr e ↦
        let n = lower_bound-cons_ge p points q.time e in
        let h' =
          subst
            (λ k.
              find_at u rest
              ≡ first_some (find_at u incoming)
                  (find_at u (skip_equal q.time (drop k (p ∷ points)))))
            n h in
        rw n (ground arith)
  ]

  -- Behind the place of `q` everything is later.
  pub behind-Above :
      (points : List (RawTimeseriesPoint D)) → Ascending points → Above q.time (behind points)
  unfolding skip_equal lower_bound
  behind-Above [] a = tt
  behind-Above (p ∷ points) a = elim (Bool-cases (ltb_ℤ p.time q.time)) [
    | inl e ↦ rw (lower_bound-cons_lt p points q.time e) (behind-Above points a.1)
    | inr e ↦ rw (lower_bound-cons_ge p points q.time e) (elim (Bool-cases (eqb_ℤ p.time q.time)) [
      | inl k ↦ rw k (Above-le p.time q.time points (ground arith) a.0)
      | inr k ↦ rw k (ground arith, Above-le p.time q.time points (ground arith) a.0)
    ])
  ]

  pub behind-All {κ} :
      (P : RawTimeseriesPoint D → Type κ) (points : List (RawTimeseriesPoint D))
      → All P points
      → All P (behind points)
  behind-All P points a =
      skip_equal-All P q.time _ (All-drop P (lower_bound points q.time) points a)

  pub behind-Ascending :
      (points : List (RawTimeseriesPoint D)) → Ascending points → Ascending (behind points)
  behind-Ascending points a =
      skip_equal-Ascending q.time _ (Ascending-drop (lower_bound points q.time) points a)

  -- What is put in front of `q` is earlier.
  pub placed-Ascending :
      (points rest : List (RawTimeseriesPoint D))
      → Ascending points
      → Above q.time rest
      → Ascending rest
      → Ascending (take (lower_bound points q.time) points ++ q ∷ rest)
  unfolding lower_bound
  placed-Ascending [] rest a b c = (b, c)
  placed-Ascending (p ∷ points) rest a b c = elim (Bool-cases (ltb_ℤ p.time q.time)) [
    | inl e ↦ rw (lower_bound-cons_lt p points q.time e) (
      All-append _ (take (lower_bound points q.time) points) (q ∷ rest)
          (All-take _ (lower_bound points q.time) points a.0)
          (ground arith, Above-le q.time p.time rest (ground arith) b),
      placed-Ascending points rest a.1 b c,
    )
    | inr e ↦ rw (lower_bound-cons_ge p points q.time e) (b, c)
  ]

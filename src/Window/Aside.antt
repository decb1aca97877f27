-- ===== src/Window/Aside.antt =====
-- The ordered side buffer of src/window_service.cpp: what `late_points[time] = point` and the erasure
-- of a range leave of it.
use time_series_engine.Base.{
  ◌≡◌, refl, ◌∙◌, sym, ap, subst, none, some, List, [], ◌∷◌, All, ◌<ℤ◌, ltb_ℤ, eqb_ℤ, eq_of_parts,
  if◌then◌else◌, arith, Bool-cases, inl, inr, drop,
}
use time_series_engine.Types.{Timestamp, RawTimeseriesPoint}
use time_series_engine.Window.Points.{insert_late, erase_late_before, lower_bound}
use time_series_engine.Window.Sequence.{insert_all_late}
use time_series_engine.Window.Lookup.{
  first_some, find_at, Above, Ascending, Above-le, find_at-Above,
}
use time_series_engine.Window.View.{late_values, Keyed}

module _ {D : Type 0} where
  find_at-insert_late :
      (t : Timestamp) (p : RawTimeseriesPoint D) (late : List (Timestamp × RawTimeseriesPoint D))
      → Keyed late
      → Ascending (late_values late)
      → find_at t (late_values (insert_late p.time p late))
        ≡ (if eqb_ℤ p.time t then some p else find_at t (late_values late))
  unfolding insert_late
  find_at-insert_late t p [] k a = refl
  find_at-insert_late t p ((u, q) ∷ late) k a =
      ground
        (arith, find_at-insert_late t p late k.1 a.1, find_at-Above q.time t (late_values late) a.0)

  insert_late-Above :
      (s : Timestamp) (p : RawTimeseriesPoint D) (late : List (Timestamp × RawTimeseriesPoint D))
      → s <ℤ p.time
      → Above s (late_values late)
      → Above s (late_values (insert_late p.time p late))
  unfolding insert_late
  insert_late-Above s p [] h a = (h, tt)
  insert_late-Above s p ((u, q) ∷ late) h a = elim (Bool-cases (ltb_ℤ p.time u)) [
    | inl e ↦ rw e (h, a)
    | inr e ↦ elim (Bool-cases (eqb_ℤ p.time u)) [
      | inl k ↦ rw (e, k) (h, a.1)
      | inr k ↦ rw (e, k) (a.0, insert_late-Above s p late h a.1)
    ]
  ]

  insert_late-Ascending :
      (p : RawTimeseriesPoint D) (late : List (Timestamp × RawTimeseriesPoint D))
      → Keyed late
      → Ascending (late_values late)
      → Ascending (late_values (insert_late p.time p late))
  unfolding insert_late
  insert_late-Ascending p [] k a = (tt, tt)
  insert_late-Ascending p ((u, q) ∷ late) k a =
      let own : u ≡ q.time = k.0 in
      elim (Bool-cases (ltb_ℤ p.time u)) [
        | inl e ↦
            let below : p.time <ℤ q.time = ground (arith, own) in
            rw e ((below, Above-le q.time p.time (late_values late) (omega arith) a.0), a)
        | inr e ↦ elim (Bool-cases (eqb_ℤ p.time u)) [
          | inl j ↦
              let same : p.time ≡ q.time = eq_of_parts p.time q.time (ground (arith, own)) in
              rw (e, j) (subst (λ x. Above x (late_values late)) (sym same) a.0, a.1)
          | inr j ↦
              let above : q.time <ℤ p.time = ground (arith, own) in
              rw (e, j)
                (insert_late-Above q.time p late above a.0, insert_late-Ascending p late k.1 a.1)
        ]
      ]

  insert_late-All {κ} :
      (P : RawTimeseriesPoint D → Type κ) (p : RawTimeseriesPoint D)
      (late : List (Timestamp × RawTimeseriesPoint D))
      → P p
      → All P (late_values late)
      → All P (late_values (insert_late p.time p late))
  unfolding insert_late
  insert_late-All P p [] h a = (h, tt)
  insert_late-All P p ((u, q) ∷ late) h a = elim (Bool-cases (ltb_ℤ p.time u)) [
    | inl e ↦ rw e (h, a)
    | inr e ↦ elim (Bool-cases (eqb_ℤ p.time u)) [
      | inl k ↦ rw (e, k) (h, a.1)
      | inr k ↦ rw (e, k) (a.0, insert_late-All P p late h a.1)
    ]
  ]

  insert_late-Keyed :
      (p : RawTimeseriesPoint D) (late : List (Timestamp × RawTimeseriesPoint D))
      → Keyed late
      → Keyed (insert_late p.time p late)
  unfolding insert_late
  insert_late-Keyed p [] k = (refl, tt)
  insert_late-Keyed p ((u, q) ∷ late) k = elim (Bool-cases (ltb_ℤ p.time u)) [
    | inl e ↦ rw e (refl, k)
    | inr e ↦ elim (Bool-cases (eqb_ℤ p.time u)) [
      | inl j ↦ rw (e, j) (refl, k.1)
      | inr j ↦ rw (e, j) (k.0, insert_late-Keyed p late k.1)
    ]
  ]

  -- The whole loop over incoming points.
  pub insert_all_late-Keyed :
      (ps : List (RawTimeseriesPoint D)) (late : List (Timestamp × RawTimeseriesPoint D))
      → Keyed late
      → Keyed (insert_all_late ps late)
  unfolding insert_all_late
  insert_all_late-Keyed [] late k = k
  insert_all_late-Keyed (p ∷ ps) late k =
      insert_all_late-Keyed ps (insert_late p.time p late) (insert_late-Keyed p late k)

  pub insert_all_late-Ascending :
      (ps : List (RawTimeseriesPoint D)) (late : List (Timestamp × RawTimeseriesPoint D))
      → Keyed late
      → Ascending (late_values late)
      → Ascending (late_values (insert_all_late ps late))
  unfolding insert_all_late
  insert_all_late-Ascending [] late k a = a
  insert_all_late-Ascending (p ∷ ps) late k a =
      insert_all_late-Ascending ps (insert_late p.time p late) (insert_late-Keyed p late k)
        (insert_late-Ascending p late k a)

  pub insert_all_late-All {κ} :
      (P : RawTimeseriesPoint D → Type κ) (ps : List (RawTimeseriesPoint D))
      (late : List (Timestamp × RawTimeseriesPoint D))
      → All P ps
      → All P (late_values late)
      → All P (late_values (insert_all_late ps late))
  unfolding insert_all_late
  insert_all_late-All P [] late h a = a
  insert_all_late-All P (p ∷ ps) late h a =
      insert_all_late-All P ps (insert_late p.time p late) h.1 (insert_late-All P p late h.0 a)

  pub find_at-insert_all_late :
      (t : Timestamp) (ps : List (RawTimeseriesPoint D))
      (late : List (Timestamp × RawTimeseriesPoint D))
      → Ascending ps
      → Keyed late
      → Ascending (late_values late)
      → find_at t (late_values (insert_all_late ps late))
        ≡ first_some (find_at t ps) (find_at t (late_values late))
  unfolding insert_all_late
  find_at-insert_all_late t [] late h k a = refl
  find_at-insert_all_late t (p ∷ ps) late h k a =
      find_at-insert_all_late t ps (insert_late p.time p late) h.1 (insert_late-Keyed p late k)
        (insert_late-Ascending p late k a)
      ∙ ap (first_some (find_at t ps)) (find_at-insert_late t p late k a)
      ∙ ground (arith, find_at-Above p.time t ps h.0)

  -- What an erasure leaves.
  pub find_at-erase_late_before :
      (s t : Timestamp) (late : List (Timestamp × RawTimeseriesPoint D))
      → Keyed late
      → Ascending (late_values late)
      → find_at t (late_values (erase_late_before s late))
        ≡ (if ltb_ℤ t s then none else find_at t (late_values late))
  unfolding erase_late_before
  find_at-erase_late_before s t [] k a = ground arith
  find_at-erase_late_before s t ((u, q) ∷ late) k a = ground (
    arith,
    k.0,
    find_at-erase_late_before s t late k.1 a.1,
    find_at-Above q.time t (late_values late) a.0,
  )

  pub find_at-drop_lower_bound :
      (s t : Timestamp) (ps : List (RawTimeseriesPoint D))
      → Ascending ps
      → find_at t (drop (lower_bound ps s) ps) ≡ (if ltb_ℤ t s then none else find_at t ps)
  unfolding lower_bound
  find_at-drop_lower_bound s t [] a = ground arith
  find_at-drop_lower_bound s t (p ∷ ps) a =
      ground (arith, find_at-drop_lower_bound s t ps a.1, find_at-Above p.time t ps a.0)

  pub erase_late_before-kept {κ} :
      (P : Timestamp × RawTimeseriesPoint D → Type κ) (s : Timestamp)
      (late : List (Timestamp × RawTimeseriesPoint D))
      → All P late
      → All P (erase_late_before s late)
  unfolding erase_late_before
  erase_late_before-kept P s [] a = tt
  erase_late_before-kept P s ((u, q) ∷ late) a = elim (Bool-cases (ltb_ℤ u s)) [
    | inl e ↦ rw e (erase_late_before-kept P s late a.1)
    | inr e ↦ rw e a
  ]

  pub erase_late_before-All {κ} :
      (P : RawTimeseriesPoint D → Type κ) (s : Timestamp)
      (late : List (Timestamp × RawTimeseriesPoint D))
      → All P (late_values late)
      → All P (late_values (erase_late_before s late))
  unfolding erase_late_before
  erase_late_before-All P s [] a = tt
  erase_late_before-All P s ((u, q) ∷ late) a = elim (Bool-cases (ltb_ℤ u s)) [
    | inl e ↦ rw e (erase_late_before-All P s late a.1)
    | inr e ↦ rw e a
  ]

  pub erase_late_before-Ascending :
      (s : Timestamp) (late : List (Timestamp × RawTimeseriesPoint D))
      → Ascending (late_values late)
      → Ascending (late_values (erase_late_before s late))
  unfolding erase_late_before
  erase_late_before-Ascending s [] a = tt
  erase_late_before-Ascending s ((u, q) ∷ late) a = elim (Bool-cases (ltb_ℤ u s)) [
    | inl e ↦ rw e (erase_late_before-Ascending s late a.1)
    | inr e ↦ rw e a
  ]

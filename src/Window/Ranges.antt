-- ===== src/Window/Ranges.antt =====
-- What the range queries on one sequence's window in src/window_service.cpp answer.
use time_series_engine.Base.{
  ℕ, zero, suc, ◌≡◌, refl, ◌∙◌, Bool, true, false, not, ◌&&◌, Option, none, List, [], ◌∷◌, drop,
  take, ltb_ℤ, if◌then◌else◌, arith, All, ◌≤ℤ◌, ◌<ℤ◌, Bool-cases, inl, inr, eq_of_parts,
}
use time_series_engine.Types.{Timestamp, RawTimeseriesPoint}
use time_series_engine.Window.{SequenceWindow}
use time_series_engine.Window.Points.{lower_bound, erase_late_before}
use time_series_engine.Window.Query.{interleave, late_before, read_range}
use time_series_engine.Window.Lookup.{
  first_some, find_at, Above, Ascending, Above-le, find_at-Above, Ascending-drop, All-take,
}
use time_series_engine.Window.View.{late_values, Keyed, view, active, IsOrdered}
use time_series_engine.Window.Aside.{
  find_at-erase_late_before, find_at-drop_lower_bound, erase_late_before-kept,
  erase_late_before-Ascending,
}

module _ {D : Type 0} where
  interleave-Above :
      (s : Timestamp) (points : List (RawTimeseriesPoint D))
      (late : List (Timestamp × RawTimeseriesPoint D))
      → Above s points
      → Above s (late_values late)
      → Above s (interleave points late)
  unfolding interleave
  interleave-Above s [] [] a b = tt
  interleave-Above s [] ((t, q) ∷ late) a b = (b.0, interleave-Above s [] late tt b.1)
  interleave-Above s (p ∷ points) [] a b = (a.0, interleave-Above s points [] a.1 tt)
  interleave-Above s (p ∷ points) ((t, q) ∷ late) a b = elim (Bool-cases (ltb_ℤ p.time t)) [
    | inl e ↦ rw (interleave, e) (a.0, interleave-Above s points ((t, q) ∷ late) a.1 b)
    | inr e ↦ elim (Bool-cases (ltb_ℤ t p.time)) [
      | inl k ↦ rw (interleave, e, k) (b.0, interleave-Above s (p ∷ points) late a b.1)
      | inr k ↦ rw (interleave, e, k) (b.0, interleave-Above s points late a.1 b.1)
    ]
  ]

  interleave-Ascending :
      (points : List (RawTimeseriesPoint D)) (late : List (Timestamp × RawTimeseriesPoint D))
      → Ascending points
      → Keyed late
      → Ascending (late_values late)
      → Ascending (interleave points late)
  unfolding interleave
  interleave-Ascending [] [] a k b = tt
  interleave-Ascending [] ((t, q) ∷ late) a k b =
      (interleave-Above q.time [] late tt b.0, interleave-Ascending [] late tt k.1 b.1)
  interleave-Ascending (p ∷ points) [] a k b =
      (interleave-Above p.time points [] a.0 tt, interleave-Ascending points [] a.1 tt tt)
  interleave-Ascending (p ∷ points) ((t, q) ∷ late) a k b =
      let own : t ≡ q.time = k.0 in
      elim (Bool-cases (ltb_ℤ p.time t)) [
        | inl e ↦
            let low : p.time <ℤ q.time = ground (arith, own) in
            rw (interleave, e)
              (
                interleave-Above p.time points ((t, q) ∷ late) a.0
                    (low, Above-le q.time p.time (late_values late) (omega arith) b.0),
                interleave-Ascending points ((t, q) ∷ late) a.1 k b,
              )
        | inr e ↦ elim (Bool-cases (ltb_ℤ t p.time)) [
          | inl j ↦
              let low : q.time <ℤ p.time = ground (arith, own) in
              rw (interleave, e, j)
                (
                  interleave-Above q.time (p ∷ points) late
                      (low, Above-le p.time q.time points (omega arith) a.0) b.0,
                  interleave-Ascending (p ∷ points) late a k.1 b.1,
                )
          | inr j ↦
              let low : q.time ≤ℤ p.time = ground (arith, own) in
              rw (interleave, e, j)
                (
                  interleave-Above q.time points late (Above-le p.time q.time points low a.0) b.0,
                  interleave-Ascending points late a.1 k.1 b.1,
                )
        ]
      ]

  find_at-interleave :
      (u : Timestamp) (points : List (RawTimeseriesPoint D))
      (late : List (Timestamp × RawTimeseriesPoint D))
      → Ascending points
      → Keyed late
      → Ascending (late_values late)
      → find_at u (interleave points late)
        ≡ first_some (find_at u (late_values late)) (find_at u points)
  unfolding interleave
  find_at-interleave u [] [] a k b = refl
  find_at-interleave u [] ((t, q) ∷ late) a k b =
      ground (arith, find_at-interleave u [] late tt k.1 b.1)
  find_at-interleave u (p ∷ points) [] a k b =
      ground (arith, find_at-interleave u points [] a.1 tt tt)
  find_at-interleave u (p ∷ points) ((t, q) ∷ late) a k b =
      let own : t ≡ q.time = k.0 in
      elim (Bool-cases (ltb_ℤ p.time t)) [
        | inl e ↦
            let low : p.time <ℤ q.time = ground (arith, own) in
            let later = Above-le q.time p.time (late_values late) (omega arith) b.0 in
            rw (interleave, e)
              (ground (
                arith,
                find_at-interleave u points ((t, q) ∷ late) a.1 k b,
                find_at-Above p.time u (late_values late) later,
              ))
        | inr e ↦ elim (Bool-cases (ltb_ℤ t p.time)) [
          | inl j ↦
              rw (interleave, e, j)
                (ground (arith, find_at-interleave u (p ∷ points) late a k.1 b.1))
          | inr j ↦
              let same : p.time ≡ q.time = eq_of_parts p.time q.time (ground (arith, own)) in
              rw (interleave, e, j)
                (ground (arith, same, find_at-interleave u points late a.1 k.1 b.1))
        ]
      ]

  -- The range that ends before a time.
  pub find_at-take_lower_bound :
      (s t : Timestamp) (ps : List (RawTimeseriesPoint D))
      → Ascending ps
      → find_at t (take (lower_bound ps s) ps) ≡ (if ltb_ℤ t s then find_at t ps else none)
  unfolding lower_bound
  find_at-take_lower_bound s t [] a = ground arith
  find_at-take_lower_bound s t (p ∷ ps) a =
      ground (arith, find_at-take_lower_bound s t ps a.1, find_at-Above p.time t ps a.0)

  pub Ascending-take :
      (n : ℕ) (ps : List (RawTimeseriesPoint D)) → Ascending ps → Ascending (take n ps)
  Ascending-take zero ps a = tt
  Ascending-take (suc n) [] a = tt
  Ascending-take (suc n) (p ∷ ps) a = (All-take _ n ps a.0, Ascending-take n ps a.1)

  pub find_at-late_before :
      (s t : Timestamp) (late : List (Timestamp × RawTimeseriesPoint D))
      → Keyed late
      → Ascending (late_values late)
      → find_at t (late_values (late_before s late))
        ≡ (if ltb_ℤ t s then find_at t (late_values late) else none)
  unfolding late_before
  find_at-late_before s t [] k a = ground arith
  find_at-late_before s t ((u, q) ∷ late) k a = ground (
    arith,
    k.0,
    find_at-late_before s t late k.1 a.1,
    find_at-Above q.time t (late_values late) a.0,
  )

  late_before-kept {κ} :
      (P : Timestamp × RawTimeseriesPoint D → Type κ) (s : Timestamp)
      (late : List (Timestamp × RawTimeseriesPoint D))
      → All P late
      → All P (late_before s late)
  unfolding late_before
  late_before-kept P s [] a = tt
  late_before-kept P s ((u, q) ∷ late) a = elim (Bool-cases (ltb_ℤ u s)) [
    | inl e ↦ rw e (a.0, late_before-kept P s late a.1)
    | inr e ↦ rw e tt
  ]

  late_before-Above :
      (r s : Timestamp) (late : List (Timestamp × RawTimeseriesPoint D))
      → Above r (late_values late)
      → Above r (late_values (late_before s late))
  unfolding late_before
  late_before-Above r s [] a = tt
  late_before-Above r s ((u, q) ∷ late) a = elim (Bool-cases (ltb_ℤ u s)) [
    | inl e ↦ rw e (a.0, late_before-Above r s late a.1)
    | inr e ↦ rw e tt
  ]

  late_before-Ascending :
      (s : Timestamp) (late : List (Timestamp × RawTimeseriesPoint D))
      → Ascending (late_values late)
      → Ascending (late_values (late_before s late))
  unfolding late_before
  late_before-Ascending s [] a = tt
  late_before-Ascending s ((u, q) ∷ late) a = elim (Bool-cases (ltb_ℤ u s)) [
    | inl e ↦ rw e (late_before-Above q.time s late a.0, late_before-Ascending s late a.1)
    | inr e ↦ rw e tt
  ]

first_some-range {ℓ} :
    {A : Type ℓ} (b c : Bool) (o p : Option A)
    → first_some
        (if c then (if b then none else o) else none)
        (if c then (if b then none else p) else none)
      ≡ (if not b && c then first_some o p else none)
first_some-range true true o p = refl
first_some-range true false o p = refl
first_some-range false true o p = refl
first_some-range false false o p = refl

module _ {D L : Type 0} where
  -- The answer for a range is in the order of time without a repetition, and has for each time from
  -- the start on and before the end the point that the window holds, and no other point.
  pub read_range-view :
      (start end t : Timestamp) (w : SequenceWindow D L)
      → IsOrdered w
      → Ascending (read_range start end w)
        × (find_at t (read_range start end w)
            ≡ (if not (ltb_ℤ t start) && ltb_ℤ t end then view w t else none))
  unfolding read_range
  read_range-view start end t w h =
      let act = active w in
      let a = Ascending-drop w.active_begin w.points h.points in
      let from_start = drop (lower_bound act start) act in
      let a' = Ascending-drop (lower_bound act start) act a in
      let late = erase_late_before start w.late_points in
      let k = erase_late_before-kept _ start w.late_points h.keyed in
      let b = erase_late_before-Ascending start w.late_points h.late in
      let points = take (lower_bound from_start end) from_start in
      let a'' = Ascending-take (lower_bound from_start end) from_start a' in
      let k' = late_before-kept _ end late k in
      let b' = late_before-Ascending end late b in
      (
        interleave-Ascending points (late_before end late) a'' k' b',
        find_at-interleave t points (late_before end late) a'' k' b'
            ∙ rw
                (
                  find_at-late_before end t late k b,
                  find_at-erase_late_before start t w.late_points h.keyed h.late,
                  find_at-take_lower_bound end t from_start a',
                  find_at-drop_lower_bound start t act a,
                )
                (first_some-range (ltb_ℤ t start) (ltb_ℤ t end)
                  (find_at t (late_values w.late_points)) (find_at t act)),
      )

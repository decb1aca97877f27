-- ===== src/Window/Prepare.antt =====
-- The sorting step of `updateWindowIncremental` and `replaceSequence` in src/window_service.cpp: the
-- points come out in the order of time, and of points with one time the last of the input stays.
use time_series_engine.Base.{
  ◌≡◌, refl, ◌∙◌, ap, true, Option, none, some, List, [], ◌∷◌, if◌then◌else◌, arith, Bool-cases,
  inl, inr, All, ◌≤ℤ◌, ◌<ℤ◌, leb_ℤ, eqb_ℤ,
}
use time_series_engine.Types.{Timestamp, RawTimeseriesPoint}
use time_series_engine.Window.Points.{
  insert_stable, stable_sort, unique_times, is_strictly_increasing,
}
use time_series_engine.Window.Sequence.{prepare}
use time_series_engine.Window.Lookup.{
  first_some, find_at, Above, Ascending, find_at-Above, Above-le,
}

module _ {D : Type 0} where
  -- The last point of a time.
  abbrev pub find_last : Timestamp → List (RawTimeseriesPoint D) → Option (RawTimeseriesPoint D)
  find_last t [] = none
  find_last t (p ∷ ps) = first_some (find_last t ps) (if eqb_ℤ p.time t then some p else none)

  abbrev AtLeast : Timestamp → List (RawTimeseriesPoint D) → Type 0
  AtLeast t = All (λ p. t ≤ℤ p.time)

  -- In the order of time, times may repeat.
  abbrev Sorted : List (RawTimeseriesPoint D) → Type 0
  Sorted [] = Unit
  Sorted (p ∷ ps) = AtLeast p.time ps × Sorted ps

  insert_stable-AtLeast :
      (t : Timestamp) (p : RawTimeseriesPoint D) (ps : List (RawTimeseriesPoint D))
      → t ≤ℤ p.time
      → AtLeast t ps
      → AtLeast t (insert_stable p ps)
  unfolding insert_stable
  insert_stable-AtLeast t p [] h a = (h, tt)
  insert_stable-AtLeast t p (q ∷ ps) h a = elim (Bool-cases (leb_ℤ p.time q.time)) [
    | inl e ↦ rw e (h, a)
    | inr e ↦ rw e (a.0, insert_stable-AtLeast t p ps h a.1)
  ]

  AtLeast-le :
      (t u : Timestamp) (ps : List (RawTimeseriesPoint D)) → u ≤ℤ t → AtLeast t ps → AtLeast u ps
  AtLeast-le t u [] h a = tt
  AtLeast-le t u (p ∷ ps) h a = (omega arith, AtLeast-le t u ps h a.1)

  insert_stable-Sorted :
      (p : RawTimeseriesPoint D) (ps : List (RawTimeseriesPoint D))
      → Sorted ps
      → Sorted (insert_stable p ps)
  unfolding insert_stable
  insert_stable-Sorted p [] s = (tt, tt)
  insert_stable-Sorted p (q ∷ ps) s = elim (Bool-cases (leb_ℤ p.time q.time)) [
    | inl e ↦
        let low : p.time ≤ℤ q.time = ground arith in
        rw e ((low, AtLeast-le q.time p.time ps low s.0), s)
    | inr e ↦
        rw e (insert_stable-AtLeast q.time p ps (ground arith) s.0, insert_stable-Sorted p ps s.1)
  ]

  stable_sort-Sorted : (ps : List (RawTimeseriesPoint D)) → Sorted (stable_sort ps)
  unfolding stable_sort
  stable_sort-Sorted [] = tt
  stable_sort-Sorted (p ∷ ps) = insert_stable-Sorted p (stable_sort ps) (stable_sort-Sorted ps)

  -- An insertion stands in front of what is equal to it.
  find_last-insert_stable :
      (t : Timestamp) (p : RawTimeseriesPoint D) (ps : List (RawTimeseriesPoint D))
      → find_last t (insert_stable p ps) ≡ find_last t (p ∷ ps)
  unfolding insert_stable
  find_last-insert_stable t p [] = refl
  find_last-insert_stable t p (q ∷ ps) = ground (arith, find_last-insert_stable t p ps)

  find_last-stable_sort :
      (t : Timestamp) (ps : List (RawTimeseriesPoint D))
      → find_last t (stable_sort ps) ≡ find_last t ps
  unfolding stable_sort
  find_last-stable_sort t [] = refl
  find_last-stable_sort t (p ∷ ps) =
      find_last-insert_stable t p (stable_sort ps)
      ∙ ap (λ o. first_some o (if eqb_ℤ p.time t then some p else none))
          (find_last-stable_sort t ps)

  unique_times-AtLeast :
      (t : Timestamp) (ps : List (RawTimeseriesPoint D))
      → AtLeast t ps
      → AtLeast t (unique_times ps)
  unfolding unique_times
  unique_times-AtLeast t [] a = tt
  unique_times-AtLeast t (p ∷ []) a = a
  unique_times-AtLeast t (p ∷ q ∷ ps) a = elim (Bool-cases (eqb_ℤ p.time q.time)) [
    | inl e ↦ rw e (unique_times-AtLeast t (q ∷ ps) a.1)
    | inr e ↦ rw e (a.0, unique_times-AtLeast t (q ∷ ps) a.1)
  ]

  AtLeast-Above :
      (t u : Timestamp) (ps : List (RawTimeseriesPoint D)) → t <ℤ u → AtLeast u ps → Above t ps
  AtLeast-Above t u [] h a = tt
  AtLeast-Above t u (p ∷ ps) h a = (omega arith, AtLeast-Above t u ps h a.1)

  unique_times-Ascending :
      (ps : List (RawTimeseriesPoint D)) → Sorted ps → Ascending (unique_times ps)
  unfolding unique_times
  unique_times-Ascending [] s = tt
  unique_times-Ascending (p ∷ []) s = (tt, tt)
  unique_times-Ascending (p ∷ q ∷ ps) s = elim (Bool-cases (eqb_ℤ p.time q.time)) [
    | inl e ↦ rw e (unique_times-Ascending (q ∷ ps) s.1)
    | inr e ↦
        let below : p.time <ℤ q.time = ground arith in
        rw e (
          AtLeast-Above p.time q.time (unique_times (q ∷ ps)) below
              (unique_times-AtLeast q.time (q ∷ ps) (omega arith, s.1.0)),
          unique_times-Ascending (q ∷ ps) s.1,
        )
  ]

  find_last-AtLeast :
      (t u : Timestamp) (ps : List (RawTimeseriesPoint D))
      → t <ℤ u
      → AtLeast u ps
      → find_last t ps ≡ none
  find_last-AtLeast t u [] h a = refl
  find_last-AtLeast t u (p ∷ ps) h a = ground (arith, find_last-AtLeast t u ps h a.1)

  find_at-unique_times :
      (t : Timestamp) (ps : List (RawTimeseriesPoint D))
      → Sorted ps
      → find_at t (unique_times ps) ≡ find_last t ps
  unfolding unique_times
  find_at-unique_times t [] s = refl
  find_at-unique_times t (p ∷ []) s = refl
  find_at-unique_times t (p ∷ q ∷ ps) s =
      let ih = find_at-unique_times t (q ∷ ps) s.1 in
      elim (Bool-cases (eqb_ℤ p.time q.time)) [
        | inl e ↦ rw (e, ih) (ground (arith))
        | inr e ↦
            let below : p.time <ℤ q.time = ground arith in
            elim (Bool-cases (eqb_ℤ p.time t)) [
              | inl k ↦
                  let gone =
                    find_last-AtLeast t q.time (q ∷ ps) (ground arith) (omega arith, s.1.0) in
                  rw (e, k, gone) refl
              | inr k ↦ rw (e, k, ih) (ground arith)
            ]
      ]

  strict-Ascending :
      (ps : List (RawTimeseriesPoint D)) → is_strictly_increasing ps ≡ true → Ascending ps
  unfolding is_strictly_increasing
  strict-Ascending [] e = tt
  strict-Ascending (p ∷ []) e = (tt, tt)
  strict-Ascending (p ∷ q ∷ ps) e =
      let below : p.time <ℤ q.time = ground arith in
      let rest = strict-Ascending (q ∷ ps) (ground arith) in
      ((below, Above-le q.time p.time ps (omega arith) rest.0), rest)

  find_last-Ascending :
      (t : Timestamp) (ps : List (RawTimeseriesPoint D))
      → Ascending ps
      → find_at t ps ≡ find_last t ps
  find_last-Ascending t [] a = refl
  find_last-Ascending t (p ∷ ps) a =
      ground (arith, find_last-Ascending t ps a.1, find_at-Above p.time t ps a.0)

  -- Prepared points are in the order of time without a repetition, and for each time they hold the
  -- last of the incoming points: an order check that lets a vector through does not change this.
  pub prepare-last :
      (t : Timestamp) (ps : List (RawTimeseriesPoint D))
      → Ascending (prepare ps) × (find_at t (prepare ps) ≡ find_last t ps)
  unfolding prepare
  prepare-last t ps = elim (Bool-cases (is_strictly_increasing ps)) [
    | inl e ↦ rw e (strict-Ascending ps e, find_last-Ascending t ps (strict-Ascending ps e))
    | inr e ↦ rw e (
      unique_times-Ascending (stable_sort ps) (stable_sort-Sorted ps),
      find_at-unique_times t (stable_sort ps) (stable_sort-Sorted ps) ∙ find_last-stable_sort t ps,
    )
  ]

  -- The same without the order check.
  pub sorted-last :
      (t : Timestamp) (ps : List (RawTimeseriesPoint D))
      → Ascending (unique_times (stable_sort ps))
        × (find_at t (unique_times (stable_sort ps)) ≡ find_last t ps)
  sorted-last t ps = (
    unique_times-Ascending (stable_sort ps) (stable_sort-Sorted ps),
    find_at-unique_times t (stable_sort ps) (stable_sort-Sorted ps) ∙ find_last-stable_sort t ps,
  )

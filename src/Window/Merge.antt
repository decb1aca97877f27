-- ===== src/Window/Merge.antt =====
-- `mergeSortedPoints` of src/window_service.cpp merges two ordered vectors: of equal times the
-- incoming point stays.
use time_series_engine.Base.{
  ◌≡◌, refl, true, none, List, [], ◌∷◌, ◌++◌, All, All-append, ◌≤ℤ◌, ◌<ℤ◌, arith, Bool-cases, inl,
  inr,
}
use time_series_engine.Types.{Timestamp, RawTimeseriesPoint}
use time_series_engine.Window.Points.{lower_bound, merge_from}
use time_series_engine.Window.Sequence.{goes_behind, merged}
use time_series_engine.Window.Placement.{
  behind, find_at-placed, behind-Above, behind-All, behind-Ascending, placed-Ascending,
}
use time_series_engine.Window.Lookup.{
  first_some, find_at, Ascending, find_at-Above, Above-le, find_at-append, All-take,
}

module _ {D : Type 0} where
  find_at-merge_from :
      (u : Timestamp) (points incoming : List (RawTimeseriesPoint D))
      → Ascending points
      → Ascending incoming
      → find_at u (merge_from points incoming) ≡ first_some (find_at u incoming) (find_at u points)
  unfolding merge_from
  find_at-merge_from u points [] a b = refl
  find_at-merge_from u points (q ∷ incoming) a b = find_at-placed q incoming u points _ b.0 (
      find_at-merge_from u (behind q incoming points) incoming
        (behind-Ascending q incoming points a) b.1)

  merge_from-All {κ} :
      (P : RawTimeseriesPoint D → Type κ) (points incoming : List (RawTimeseriesPoint D))
      → All P points
      → All P incoming
      → All P (merge_from points incoming)
  unfolding merge_from
  merge_from-All P points [] a b = a
  merge_from-All P points (q ∷ incoming) a b =
      All-append P _ _ (All-take P (lower_bound points q.time) points a) (
        b.0,
        merge_from-All P (behind q incoming points) incoming (behind-All q incoming P points a) b.1,
      )

  merge_from-Ascending :
      (points incoming : List (RawTimeseriesPoint D))
      → Ascending points
      → Ascending incoming
      → Ascending (merge_from points incoming)
  unfolding merge_from
  merge_from-Ascending points [] a b = a
  merge_from-Ascending points (q ∷ incoming) a b =
      placed-Ascending q incoming points _ a
        (merge_from-All _ (behind q incoming points) incoming (behind-Above q incoming points a)
          b.0)
        (merge_from-Ascending (behind q incoming points) incoming
          (behind-Ascending q incoming points a) b.1)

  abbrev Below : Timestamp → List (RawTimeseriesPoint D) → Type 0
  Below t = All (λ p. p.time <ℤ t)

  find_at-Below :
      (t u : Timestamp) (ps : List (RawTimeseriesPoint D))
      → Below t ps
      → t ≤ℤ u
      → find_at u ps ≡ none
  find_at-Below t u [] b h = refl
  find_at-Below t u (p ∷ ps) b h = ground (arith, find_at-Below t u ps b.1 h)

  goes_behind-Below :
      (points incoming : List (RawTimeseriesPoint D)) (q : RawTimeseriesPoint D)
      → Ascending points
      → goes_behind points (q ∷ incoming) ≡ true
      → Below q.time points
  unfolding goes_behind
  goes_behind-Below [] incoming q a h = tt
  goes_behind-Below (p ∷ []) incoming q a h = (ground arith, tt)
  goes_behind-Below (p ∷ r ∷ points) incoming q a h =
      let rest = goes_behind-Below (r ∷ points) incoming q a.1 h in (ground arith, rest)

  append_behind :
      (points incoming : List (RawTimeseriesPoint D)) (q : RawTimeseriesPoint D)
      → Ascending points
      → Below q.time points
      → Ascending (q ∷ incoming)
      → Ascending (points ++ q ∷ incoming)
  append_behind [] incoming q a b c = c
  append_behind (p ∷ points) incoming q a b c = (
    All-append _ points (q ∷ incoming) a.0 (b.0, Above-le q.time p.time incoming (omega arith) c.0),
    append_behind points incoming q a.1 b.1 c,
  )

  -- Both branches of the merge give the map in which the incoming points come first.
  pub find_at-merged :
      (u : Timestamp) (points incoming : List (RawTimeseriesPoint D))
      → Ascending points
      → Ascending incoming
      → find_at u (merged points incoming) ≡ first_some (find_at u incoming) (find_at u points)
  unfolding merged
  find_at-merged u points [] a b = ground (arith, find_at-merge_from u points [] a b)
  find_at-merged u points (q ∷ incoming) a b =
      elim (Bool-cases (goes_behind points (q ∷ incoming))) [
        | inl e ↦
            let below = goes_behind-Below points incoming q a e in
            rw e (
              ground (
                arith,
                find_at-append u points (q ∷ incoming),
                find_at-Below q.time u points below,
                find_at-Above q.time u incoming b.0,
              ))
        | inr e ↦ rw e (find_at-merge_from u points (q ∷ incoming) a b)
      ]

  pub merged-Ascending :
      (points incoming : List (RawTimeseriesPoint D))
      → Ascending points
      → Ascending incoming
      → Ascending (merged points incoming)
  unfolding merged
  merged-Ascending points [] a b = merge_from-Ascending points [] a b
  merged-Ascending points (q ∷ incoming) a b =
      elim (Bool-cases (goes_behind points (q ∷ incoming))) [
        | inl e ↦
            rw e (append_behind points incoming q a (goes_behind-Below points incoming q a e) b)
        | inr e ↦ rw e (merge_from-Ascending points (q ∷ incoming) a b)
      ]

  pub merged-All {κ} :
      (P : RawTimeseriesPoint D → Type κ) (points incoming : List (RawTimeseriesPoint D))
      → All P points
      → All P incoming
      → All P (merged points incoming)
  unfolding merged
  merged-All P points incoming a b = elim (Bool-cases (goes_behind points incoming)) [
    | inl e ↦ rw e (All-append P points incoming a b)
    | inr e ↦ rw e (merge_from-All P points incoming a b)
  ]

-- ===== src/Window/Query.antt =====
-- Range queries on one sequence's window in src/window_service.cpp: the loops of `queryWindowData`.
use time_series_engine.Base.{
  ℕ, zero, suc, true, false, List, [], ◌∷◌, ◌++◌, drop, take, ltb_ℤ, leb_ℤ, eqb_ℤ, if◌then◌else◌,
}
use mathlib.Core.List.{reverse}
use time_series_engine.Types.{Timestamp, RawTimeseriesPoint}
use time_series_engine.Window.{SequenceWindow}
use time_series_engine.Window.Points.{lower_bound, erase_late_before}

module _ {D : Type 0} where
  -- The loop over the vector's and the buffer's range: of equal times the correction is taken.
  unfoldable pub interleave :
      List (RawTimeseriesPoint D)
      → List (Timestamp × RawTimeseriesPoint D)
      → List (RawTimeseriesPoint D)
  interleave [] [] = []
  interleave [] ((t, q) ∷ late) = q ∷ interleave [] late
  interleave (p ∷ points) [] = p ∷ interleave points []
  interleave (p ∷ points) ((t, q) ∷ late) = elim (ltb_ℤ p.time t) [
    | true ↦ p ∷ interleave points ((t, q) ∷ late)
    | false ↦ elim (ltb_ℤ t p.time) [
      | true ↦ q ∷ interleave (p ∷ points) late
      | false ↦ q ∷ interleave points late
    ]
  ]

  -- The corrections before a time: up to `late_points.lower_bound(end)`.
  unfoldable pub late_before :
      Timestamp → List (Timestamp × RawTimeseriesPoint D) → List (Timestamp × RawTimeseriesPoint D)
  late_before t [] = []
  late_before t ((u, q) ∷ late) =
      let rest = late_before t late in if ltb_ℤ u t then (u, q) ∷ rest else []

  -- The loop that takes points behind the range, at most as many as asked for.
  unfoldable pub following :
      ℕ
      → List (RawTimeseriesPoint D)
      → List (Timestamp × RawTimeseriesPoint D)
      → List (RawTimeseriesPoint D)
  following zero points late = []
  following (suc n) [] [] = []
  following (suc n) [] ((t, q) ∷ late) = q ∷ following n [] late
  following (suc n) (p ∷ points) [] = p ∷ following n points []
  following (suc n) (p ∷ points) ((t, q) ∷ late) = elim (leb_ℤ q.time p.time) [
    | true ↦
        q ∷ following n (elim (eqb_ℤ p.time q.time) [ true ↦ points | false ↦ p ∷ points ]) late
    | false ↦ p ∷ following n points ((t, q) ∷ late)
  ]

  -- The loop that takes points in front of the range, on both ranges from their ends.
  unfoldable pub preceding :
      ℕ
      → List (RawTimeseriesPoint D)
      → List (Timestamp × RawTimeseriesPoint D)
      → List (RawTimeseriesPoint D)
  preceding zero points late = []
  preceding (suc n) [] [] = []
  preceding (suc n) [] ((t, q) ∷ late) = q ∷ preceding n [] late
  preceding (suc n) (p ∷ points) [] = p ∷ preceding n points []
  preceding (suc n) (p ∷ points) ((t, q) ∷ late) = elim (leb_ℤ p.time q.time) [
    | true ↦
        q ∷ preceding n (elim (eqb_ℤ p.time q.time) [ true ↦ points | false ↦ p ∷ points ]) late
    | false ↦ p ∷ preceding n points ((t, q) ∷ late)
  ]

module _ {D L : Type 0} where
  -- What the loop over a sequence's range puts out.
  unfoldable pub read_range :
      Timestamp → Timestamp → SequenceWindow D L → List (RawTimeseriesPoint D)
  unfolding lower_bound erase_late_before late_before interleave
  read_range start end w =
      let active = drop w.active_begin w.points in
      let from_start = drop (lower_bound active start) active in
      interleave (take (lower_bound from_start end) from_start)
        (late_before end (erase_late_before start w.late_points))

  -- `output` of one sequence, with the context that the query asks for.
  unfoldable pub read_sequence :
      ℕ → ℕ → Timestamp → Timestamp → SequenceWindow D L → List (RawTimeseriesPoint D)
  unfolding lower_bound erase_late_before late_before preceding following read_range
  read_sequence before after start end w =
      let active = drop w.active_begin w.points in
      let from_start = drop (lower_bound active start) active in
      reverse (
        preceding before (reverse (take (lower_bound active start) active))
          (reverse (late_before start w.late_points)))
      ++ read_range start end w
      ++ following after (drop (lower_bound from_start end) from_start)
          (erase_late_before end w.late_points)

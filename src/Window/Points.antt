-- ===== src/Window/Points.antt =====
-- Vectors of points in src/window_service.cpp: binary search, stable sorting, removal of duplicate
-- times, the ordered side buffer, and the merge of sorted points. `std::lower_bound` on an ordered
-- range is the number of leading points before the time.
use time_series_engine.Base.{
  ℕ, suc, Bool, true, false, Option, none, some, List, [], ◌∷◌, ◌++◌, take, drop, ltb_ℤ, leb_ℤ,
  eqb_ℤ, if◌then◌else◌,
}
use time_series_engine.Types.{Timestamp, RawTimeseriesPoint}

module _ {D : Type 0} where
  unfoldable pub lower_bound : List (RawTimeseriesPoint D) → Timestamp → ℕ
  lower_bound [] t = 0
  lower_bound (p ∷ ps) t = let rest = lower_bound ps t in if ltb_ℤ p.time t then suc rest else 0

  -- `std::upper_bound`
  unfoldable pub upper_bound : List (RawTimeseriesPoint D) → Timestamp → ℕ
  upper_bound [] t = 0
  upper_bound (p ∷ ps) t = let rest = upper_bound ps t in if leb_ℤ p.time t then suc rest else 0

  -- `std::stable_sort` by time: an insertion that stays in front of what is equal.
  unfoldable pub insert_stable :
      RawTimeseriesPoint D → List (RawTimeseriesPoint D) → List (RawTimeseriesPoint D)
  insert_stable p [] = p ∷ []
  insert_stable p (q ∷ qs) = if leb_ℤ p.time q.time then p ∷ q ∷ qs else q ∷ insert_stable p qs

  unfoldable pub stable_sort : List (RawTimeseriesPoint D) → List (RawTimeseriesPoint D)
  unfolding insert_stable
  stable_sort [] = []
  stable_sort (p ∷ ps) = insert_stable p (stable_sort ps)

  -- Of neighbours with one time the last stays: `unique.back() = point`, or `push_back`.
  unfoldable pub unique_times : List (RawTimeseriesPoint D) → List (RawTimeseriesPoint D)
  unique_times [] = []
  unique_times (p ∷ []) = p ∷ []
  unique_times (p ∷ q ∷ rest) =
      let more = unique_times (q ∷ rest) in if eqb_ℤ p.time q.time then more else p ∷ more

  -- The loop that tests an incoming vector for order.
  unfoldable pub is_strictly_increasing : List (RawTimeseriesPoint D) → Bool
  is_strictly_increasing [] = true
  is_strictly_increasing (p ∷ []) = true
  is_strictly_increasing (p ∷ q ∷ rest) =
      let more = is_strictly_increasing (q ∷ rest) in if leb_ℤ q.time p.time then false else more

  -- `late_points[time] = point` in the ordered map.
  unfoldable pub insert_late :
      Timestamp
      → RawTimeseriesPoint D
      → List (Timestamp × RawTimeseriesPoint D)
      → List (Timestamp × RawTimeseriesPoint D)
  insert_late t p [] = (t, p) ∷ []
  insert_late t p ((u, q) ∷ late) =
      if ltb_ℤ t u
      then (t, p) ∷ (u, q) ∷ late
      else if eqb_ℤ t u
      then (t, p) ∷ late
      else (u, q) ∷ insert_late t p late

  -- `late_points.erase(begin, lower_bound(start))`
  unfoldable pub erase_late_before :
      Timestamp → List (Timestamp × RawTimeseriesPoint D) → List (Timestamp × RawTimeseriesPoint D)
  erase_late_before t [] = []
  erase_late_before t ((u, q) ∷ late) =
      let rest = erase_late_before t late in if ltb_ℤ u t then rest else (u, q) ∷ late

  -- `points.back()`, of a vector that has a point.
  unfoldable pub back? : List (RawTimeseriesPoint D) → Option (RawTimeseriesPoint D)
  back? [] = none
  back? (p ∷ []) = some p
  back? (p ∷ q ∷ rest) = back? (q ∷ rest)

  -- A point at the insertion position is replaced if it has the time.
  unfoldable pub skip_equal : Timestamp → List (RawTimeseriesPoint D) → List (RawTimeseriesPoint D)
  skip_equal t [] = []
  skip_equal t (p ∷ ps) = if eqb_ℤ p.time t then ps else p ∷ ps

  -- The loop of `mergeSortedPoints`: each incoming point is put in at its place, and the search for
  -- the next begins behind it.
  unfoldable pub merge_from :
      List (RawTimeseriesPoint D) → List (RawTimeseriesPoint D) → List (RawTimeseriesPoint D)
  unfolding lower_bound skip_equal
  merge_from points [] = points
  merge_from points (q ∷ incoming) =
      let n = lower_bound points q.time in
      take n points ++ q ∷ merge_from (skip_equal q.time (drop n points)) incoming

-- ===== src/Window/Sequence.antt =====
-- The operations on one sequence's window in src/window_service.cpp.
use time_series_engine.Base.{
  ℕ, ◌+◌, ◌*◌, Bool, true, false, not, ◌&&◌, ◌||◌, Option, none, some, List, [], ◌∷◌, ◌++◌, map,
  length, is_nil, take, drop, leb, ltb_ℤ, ◌==◌, if◌then◌else◌,
}
use time_series_engine.Floating.{Floating, Extended}
use time_series_engine.Types.{Timestamp, RawTimeseriesPoint, TimeseriesBatch}
use time_series_engine.Window.{SequenceWindow}
use time_series_engine.Window.Points.{
  lower_bound, stable_sort, unique_times, is_strictly_increasing, insert_late, erase_late_before,
  back?, merge_from,
}
use time_series_engine.Window.Statistics.{
  reset_statistics, append_statistic, append_statistics, remove_statistics,
}

abbrev pub late_point_flush_threshold : ℕ
late_point_flush_threshold = 64

abbrev pub compaction_threshold : ℕ
compaction_threshold = 4096

module _ {D : Type 0} where
  -- `points.back().time`, where there is a point.
  unfoldable pub back_time : List (RawTimeseriesPoint D) → Option Timestamp
  unfolding back?
  back_time points = elim (back? points) [ none ↦ none | some p ↦ some p.time ]

  -- `late_points[point.time] = point`, for each incoming point.
  unfoldable pub insert_all_late :
      List (RawTimeseriesPoint D)
      → List (Timestamp × RawTimeseriesPoint D)
      → List (Timestamp × RawTimeseriesPoint D)
  unfolding insert_late
  insert_all_late [] late = late
  insert_all_late (p ∷ ps) late = insert_all_late ps (insert_late p.time p late)

  -- `latest_time` over the incoming points: it grows, or is set.
  unfoldable pub raise_latest : List (RawTimeseriesPoint D) → Option Timestamp → Option Timestamp
  raise_latest [] latest = latest
  raise_latest (p ∷ ps) none = raise_latest ps (some p.time)
  raise_latest (p ∷ ps) (some latest) =
      raise_latest ps (some (if ltb_ℤ latest p.time then p.time else latest))

  -- `points.empty() || incoming.front().time > points.back().time`
  unfoldable pub goes_behind : List (RawTimeseriesPoint D) → List (RawTimeseriesPoint D) → Bool
  unfolding back?
  goes_behind points [] = false
  goes_behind points (q ∷ incoming) = elim (back? points) [
    | none ↦ true
    | some p ↦ ltb_ℤ p.time q.time
  ]

  -- The two branches of `mergeSortedPoints` that write points.
  unfoldable pub merged :
      List (RawTimeseriesPoint D) → List (RawTimeseriesPoint D) → List (RawTimeseriesPoint D)
  unfolding goes_behind merge_from
  merged points incoming =
      if goes_behind points incoming then points ++ incoming else merge_from points incoming

  -- `late_points.begin() != late_points.lower_bound(start)`
  unfoldable pub starts_before : Timestamp → List (Timestamp × RawTimeseriesPoint D) → Bool
  starts_before start [] = false
  starts_before start ((t, p) ∷ late) = ltb_ℤ t start

  -- `incoming.front().time > *latest_time`, or no latest time.
  unfoldable pub is_later : List (RawTimeseriesPoint D) → Option Timestamp → Bool
  is_later [] latest = false
  is_later (q ∷ incoming) none = true
  is_later (q ∷ incoming) (some latest) = ltb_ℤ latest q.time

  -- The incoming points of a sequence in order and without repeated times: the sorting step of
  -- `updateWindowIncremental`.
  unfoldable pub prepare : List (RawTimeseriesPoint D) → List (RawTimeseriesPoint D)
  unfolding is_strictly_increasing unique_times stable_sort
  prepare incoming =
      if is_strictly_increasing incoming then incoming else unique_times (stable_sort incoming)

module _ {D L : Type 0} where
  -- `SequenceWindow::empty`
  unfoldable pub is_empty_window : SequenceWindow D L → Bool
  is_empty_window w = leb (length w.points) w.active_begin && is_nil w.late_points

  unfoldable pub compact_sequence : SequenceWindow D L → SequenceWindow D L
  compact_sequence w =
      if w.active_begin == 0
      then w
      else if leb (length w.points) w.active_begin
      then record w { points = []; active_begin = 0 }
      else record w { points = drop w.active_begin w.points; active_begin = 0 }

  -- What stands behind the early return of `mergeSortedPoints`.
  unfoldable pub merge_incoming :
      List (RawTimeseriesPoint D) → SequenceWindow D L → SequenceWindow D L
  unfolding merged back_time
  merge_incoming incoming w =
      let points = merged w.points incoming in
      record w {
        points = points;
        active_begin = 0;
        latest_time =
            if not (is_nil points)
            then back_time points
            else if is_nil w.late_points
            then none
            else w.latest_time;
      }

  unfoldable pub merge_sorted_points :
      List (RawTimeseriesPoint D) → SequenceWindow D L → SequenceWindow D L
  unfolding compact_sequence merge_incoming
  merge_sorted_points incoming w =
      let compacted = compact_sequence (record w { statistics_valid = false }) in
      if is_nil incoming then compacted else merge_incoming incoming compacted

  unfoldable pub flush_late_points : SequenceWindow D L → SequenceWindow D L
  unfolding merge_sorted_points
  flush_late_points w =
      if is_nil w.late_points
      then w
      else merge_sorted_points (map (λ (e : Timestamp × RawTimeseriesPoint D). e.1) w.late_points)
          (record w { late_points = [] })

  -- The loop of the branch that puts corrections aside.
  unfoldable pub put_aside : List (RawTimeseriesPoint D) → SequenceWindow D L → SequenceWindow D L
  unfolding insert_all_late raise_latest
  put_aside incoming w = record w {
    statistics_valid = false;
    late_points = insert_all_late incoming w.late_points;
    latest_time = raise_latest incoming w.latest_time;
  }

  -- The branch: corrections are folded in once they are many.
  unfoldable pub set_aside : List (RawTimeseriesPoint D) → SequenceWindow D L → SequenceWindow D L
  unfolding put_aside flush_late_points
  set_aside incoming w =
      let w' = put_aside incoming w in
      if leb late_point_flush_threshold (length w'.late_points) then flush_late_points w' else w'

module _ {D L : Type 0} ⦃f : Floating D⦄ ⦃x : Extended D L⦄ where
  unfoldable pub rebuild_statistics : SequenceWindow D L → SequenceWindow D L
  unfolding flush_late_points reset_statistics append_statistics
  rebuild_statistics w =
      let flushed = flush_late_points w in
      append_statistics (drop flushed.active_begin flushed.points) (reset_statistics flushed)

  unfoldable pub replace_sequence : TimeseriesBatch D → SequenceWindow D L → SequenceWindow D L
  unfolding unique_times stable_sort back_time reset_statistics append_statistics
  replace_sequence batch w =
      let points = unique_times (stable_sort batch.points) in
      append_statistics points (
        reset_statistics (record w {
          points = points;
          active_begin = 0;
          late_points = [];
          latest_time = back_time points;
        }))

  -- The loop of the append branch.
  unfoldable pub append_points :
      List (RawTimeseriesPoint D) → SequenceWindow D L → SequenceWindow D L
  unfolding append_statistic
  append_points [] w = w
  append_points (p ∷ ps) w =
      append_points ps
        (append_statistic p (record w { points = w.points ++ p ∷ []; latest_time = some p.time }))

  -- `update_sequence`, on prepared points: the window and `incremental_safe`.
  unfoldable pub update_sequence :
      Bool → List (RawTimeseriesPoint D) → SequenceWindow D L → SequenceWindow D L × Bool
  unfolding is_empty_window is_later append_points merge_sorted_points set_aside
  update_sequence strictly_increasing incoming w =
      if (strictly_increasing && not (is_nil incoming)) && is_later incoming w.latest_time
      then (append_points incoming w, true)
      else if is_empty_window w && is_nil w.late_points
      then (merge_sorted_points incoming w, false)
      else (set_aside incoming w, false)

  -- The window without what is before `start`: its points are passed over, its corrections erased.
  unfoldable pub pruned : Timestamp → SequenceWindow D L → SequenceWindow D L
  unfolding lower_bound remove_statistics erase_late_before starts_before
  pruned start w =
      let active = drop w.active_begin w.points in
      let n = lower_bound active start in
      let removed = remove_statistics (take n active) w in
      record removed {
        active_begin = w.active_begin + n;
        late_points = erase_late_before start w.late_points;
        statistics_valid =
            if starts_before start w.late_points then false else removed.statistics_valid;
      }

  unfoldable pub compact_if_worth : SequenceWindow D L → SequenceWindow D L
  unfolding compact_sequence
  compact_if_worth w =
      if leb compaction_threshold w.active_begin && leb (length w.points) (w.active_begin * 2)
      then compact_sequence w
      else w

  -- `pruneOne`: the window and `evicted`.
  unfoldable pub prune_one : Timestamp → SequenceWindow D L → SequenceWindow D L × Bool
  unfolding lower_bound starts_before pruned compact_if_worth
  prune_one start w = (
    compact_if_worth (pruned start w),
    not (lower_bound (drop w.active_begin w.points) start == 0)
        || starts_before start w.late_points,
  )

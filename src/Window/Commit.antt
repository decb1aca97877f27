-- ===== src/Window/Commit.antt =====
-- The rest of `updateWindowIncremental` of src/window_service.cpp: metadata, eviction, and the whole
-- method with its early returns.
use time_series_engine.Base.{
  ℤ, pos, leb_ℤ, true, false, not, Option, none, some, List, [], ◌∷◌, ◌++◌, map, String, len,
  if◌then◌else◌, value_or, length, is_nil,
}
use Prim.Native.String.{slice}
use time_series_engine.Base.Assoc.{Table, lookup, insert, contains, has_id}
use time_series_engine.Floating.{Floating, Extended}
use time_series_engine.Operation
use time_series_engine.Operation.{invalid_argument}
use time_series_engine.Types.{Timestamp, ProjectId, SequenceId, RawTimeseriesPoint, TimeseriesBatch}
use time_series_engine.Validation.{validate_batch_context}
use time_series_engine.Window.Service.{
  WindowService, effective_project, sequence_prefix, start_of_window, prune_windows,
  default_window_size,
}
use time_series_engine.Window.Batch.{
  WindowUpdateResult, empty_result, update_of, next_generation, raise_watermark, gather,
  update_sequences,
}

-- `sequence_key.substr(prefix.size())`
unfoldable pub sequence_of_key : ProjectId → String → SequenceId
sequence_of_key project key = slice key (len (sequence_prefix project)) (len key)

-- The loop over the sequences that the batch changed.
unfoldable pub report_changed :
    List SequenceId → List SequenceId → WindowUpdateResult → WindowUpdateResult
unfolding insert lookup has_id
report_changed evicted [] result = result
report_changed evicted (id ∷ ids) result = report_changed evicted ids (record result {
  sequence_updates =
      insert id (record (update_of id result) { window_evicted = has_id id evicted })
        result.sequence_updates;
})

-- The loop over the evicted sequences.
unfoldable pub report_evicted :
    Timestamp → List SequenceId → WindowUpdateResult → WindowUpdateResult
unfolding insert lookup has_id
report_evicted window_start [] result = result
report_evicted window_start (id ∷ ids) result =
    let update = update_of id result in
    report_evicted window_start ids (record result {
      sequence_updates =
          insert id
            (record update {
              window_evicted = true;
              affected_start_time = some (value_or update.affected_start_time window_start);
              affected_end_time = some (
                  value_or update.affected_end_time
                    (value_or result.affected_end_time window_start));
            })
            result.sequence_updates;
      changed_sequence_ids =
          if has_id id result.changed_sequence_ids
          then result.changed_sequence_ids
          else result.changed_sequence_ids ++ id ∷ [];
    })

module _ {D L : Type 0} where
  -- What happens under the lock of the metadata.
  unfoldable pub update_metadata :
      ProjectId → List (RawTimeseriesPoint D) → Option ℤ → WindowService D L → WindowService D L
  unfolding insert lookup raise_watermark next_generation
  update_metadata project points window_size_override svc = record svc {
    window_sizes = elim window_size_override [
      | none ↦ svc.window_sizes
      | some size ↦ insert project size svc.window_sizes
    ];
    watermarks =
        insert project
          (raise_watermark (contains project svc.watermarks) points
            (value_or (lookup project svc.watermarks) (pos 0)))
          svc.watermarks;
    update_generations =
        insert project (next_generation (value_or (lookup project svc.update_generations) 0))
          svc.update_generations;
  }

  -- The start of the window after the metadata was updated.
  unfoldable pub current_start : ProjectId → WindowService D L → Timestamp
  unfolding lookup start_of_window
  current_start project svc =
      start_of_window (value_or (lookup project svc.watermarks) (pos 0))
        (value_or (lookup project svc.window_sizes) default_window_size)

  -- The result when the updates of the sequences begin.
  unfoldable pub started : ProjectId → WindowService D L → WindowUpdateResult → WindowUpdateResult
  unfolding lookup current_start
  started project svc gathered = record gathered {
    update_generation = value_or (lookup project svc.update_generations) 0;
    window_start_time = some (current_start project svc);
    incremental_safe = true;
  }

module _ {D : Type 0} where
  -- The three tests in front of the loop over the points.
  unfoldable pub check_request : ProjectId → TimeseriesBatch D → Option ℤ → Option String
  unfolding validate_batch_context
  check_request project batch window_size_override =
      if is_nil batch.points
      then some "window input must not be empty"
      else if elim window_size_override [ none ↦ false | some size ↦ leb_ℤ size (pos 0) ]
      then some "window_size must be positive"
      else validate_batch_context project batch

module _ {D L : Type 0} ⦃f : Floating D⦄ ⦃x : Extended D L⦄ where
  -- What stands behind the checks.
  unfoldable pub commit_batch :
      ProjectId
      → TimeseriesBatch D
      → Option ℤ
      → WindowService D L
      → WindowUpdateResult × Table (List (RawTimeseriesPoint D))
      → WindowService D L × WindowUpdateResult
  unfolding lookup update_metadata current_start started update_sequences prune_windows
      sequence_of_key report_changed report_evicted
  commit_batch project batch window_size_override svc (gathered, incoming) =
      let svc1 = update_metadata project batch.points window_size_override svc in
      let start = current_start project svc1 in
      let (svc2, result) =
        update_sequences project incoming (svc1, started project svc1 gathered) in
      let (windows, keys) = prune_windows (sequence_prefix project) start svc2.sequence_windows in
      let evicted = map (sequence_of_key project) keys in
      (
        record svc2 { sequence_windows = windows },
        record (report_evicted start evicted
            (report_changed evicted result.changed_sequence_ids result)) {
              window_evicted = not (is_nil keys);
              operation = Operation.ok (length batch.points) "hot window updated";
            },
      )

  -- An early return.
  unfoldable pub reject_batch :
      ProjectId → String → WindowService D L → WindowService D L × WindowUpdateResult
  reject_batch project error svc = (svc, empty_result project (invalid_argument error))

  -- What follows the loop over the points: its error, or the rest of the method.
  unfoldable pub finish_batch :
      ProjectId
      → TimeseriesBatch D
      → Option ℤ
      → WindowService D L
      → Option String × (WindowUpdateResult × Table (List (RawTimeseriesPoint D)))
      → WindowService D L × WindowUpdateResult
  unfolding commit_batch
  finish_batch project batch window_size_override svc (some error, g) =
      (svc, record g.0 { operation = invalid_argument error })
  finish_batch project batch window_size_override svc (none, g) =
      commit_batch project batch window_size_override svc g

  unfoldable pub update_window_incremental :
      ProjectId
      → TimeseriesBatch D
      → Option ℤ
      → WindowService D L
      → WindowService D L × WindowUpdateResult
  unfolding effective_project check_request reject_batch gather finish_batch
  update_window_incremental project_id batch window_size_override svc =
      let project = effective_project project_id in
      elim (check_request project batch window_size_override) [
        | some error ↦ reject_batch project error svc
        | none ↦
            finish_batch project batch window_size_override svc
              (gather project batch.points (empty_result project (Operation.ok 0 ""), []))
      ]

-- ===== src/Window/Patch.antt =====
-- `patchDerivedSequence` and `replaceDerivedSequence` of src/window_service.cpp.
use time_series_engine.Base.{
  not, ◌||◌, Option, none, some, List, ◌++◌, String, take, drop, length, is_empty, str_eq, ltb_ℤ,
  eqb_ℤ, if◌then◌else◌,
}
use time_series_engine.Base.Assoc.{lookup, insert}
use time_series_engine.Base.Checked.{first_error}
use time_series_engine.Floating.{Floating, Extended}
use time_series_engine.Operation
use time_series_engine.Operation.{invalid_argument}
use time_series_engine.Types.{
  Timestamp, ProjectId, SequenceId, OperationResult, RawTimeseriesPoint, TimeseriesBatch,
}
use time_series_engine.Validation.{validate_batch_context, validate_project_point}
use time_series_engine.Window.{SequenceWindow}
use time_series_engine.Window.Points.{lower_bound, upper_bound, stable_sort, unique_times}
use time_series_engine.Window.Sequence.{
  compact_sequence, flush_late_points, merge_sorted_points, replace_sequence,
}
use time_series_engine.Window.Service.{
  WindowService, max_time, effective_project, scoped_sequence_key, window_size, window_at,
  prune_project,
}

module _ {D : Type 0} where
  -- `points.erase(begin, finish)`
  unfoldable pub erase_range :
      Timestamp → Timestamp → List (RawTimeseriesPoint D) → List (RawTimeseriesPoint D)
  unfolding lower_bound upper_bound
  erase_range start end points =
      take (lower_bound points start) points
      ++ drop (if eqb_ℤ end max_time then length points else upper_bound points end) points

module _ {D L : Type 0} where
  -- What happens under the lock of the output sequence.
  unfoldable pub patch_sequence :
      Timestamp → Timestamp → List (RawTimeseriesPoint D) → SequenceWindow D L → SequenceWindow D L
  unfolding flush_late_points compact_sequence erase_range merge_sorted_points unique_times
      stable_sort
  patch_sequence start end patch w =
      let compacted = compact_sequence (flush_late_points w) in
      merge_sorted_points (unique_times (stable_sort patch))
        (record compacted { points = erase_range start end compacted.points })

module _ {D : Type 0} ⦃f : Floating D⦄ where
  -- The tests of both loops on one point of a derived sequence.
  unfoldable pub check_derived_point : ProjectId → SequenceId → RawTimeseriesPoint D → Option String
  unfolding validate_project_point
  check_derived_point project sequence_id point = elim (validate_project_point project point) [
    | some error ↦ some error
    | none ↦
        if not (str_eq point.sequence_id sequence_id)
        then some "derived point sequence_id does not match output sequence"
        else none
  ]

  unfoldable pub check_patch_point :
      ProjectId → SequenceId → Timestamp → Timestamp → RawTimeseriesPoint D → Option String
  unfolding check_derived_point
  check_patch_point project sequence_id start end point =
      elim (check_derived_point project sequence_id point) [
        | some error ↦ some error
        | none ↦
            if ltb_ℤ point.time start || ltb_ℤ end point.time
            then some "derived patch contains a point outside its affected range"
            else none
      ]

  -- The tests of `patchDerivedSequence`, in their order.
  unfoldable pub check_patch :
      ProjectId → SequenceId → Timestamp → Timestamp → TimeseriesBatch D → Option String
  unfolding validate_batch_context check_patch_point first_error
  check_patch project sequence_id start end batch =
      if is_empty sequence_id
      then some "derived sequence_id must not be empty"
      else if ltb_ℤ end start
      then some "derived patch start time must not be after end time"
      else elim (validate_batch_context project batch) [
        | some error ↦ some error
        | none ↦ first_error (check_patch_point project sequence_id start end) batch.points
      ]

  unfoldable pub check_replacement : ProjectId → SequenceId → TimeseriesBatch D → Option String
  unfolding validate_batch_context check_derived_point first_error
  check_replacement project sequence_id batch =
      if is_empty sequence_id
      then some "derived sequence_id must not be empty"
      else elim (validate_batch_context project batch) [
        | some error ↦ some error
        | none ↦ first_error (check_derived_point project sequence_id) batch.points
      ]

module _ {D L : Type 0} ⦃f : Floating D⦄ ⦃x : Extended D L⦄ where
  unfoldable pub patch_derived_sequence :
      ProjectId
      → SequenceId
      → Timestamp
      → Timestamp
      → TimeseriesBatch D
      → WindowService D L
      → WindowService D L × OperationResult
  unfolding effective_project scoped_sequence_key check_patch window_at patch_sequence insert
  patch_derived_sequence project_id sequence_id start end batch svc =
      let key = scoped_sequence_key project_id sequence_id in
      elim (check_patch (effective_project project_id) sequence_id start end batch) [
        | some error ↦ (svc, invalid_argument error)
        | none ↦ (
          record svc {
            sequence_windows =
                insert key (patch_sequence start end batch.points (window_at svc key))
                  svc.sequence_windows;
          },
          Operation.ok (length batch.points) "derived hot window patched",
        )
      ]

  unfoldable pub replace_derived_sequence :
      ProjectId
      → SequenceId
      → TimeseriesBatch D
      → WindowService D L
      → WindowService D L × OperationResult
  unfolding effective_project scoped_sequence_key check_replacement window_at replace_sequence
      insert lookup window_size prune_project
  replace_derived_sequence project_id sequence_id batch svc =
      let project = effective_project project_id in
      let key = scoped_sequence_key project_id sequence_id in
      elim (check_replacement project sequence_id batch) [
        | some error ↦ (svc, invalid_argument error)
        | none ↦ (
          prune_project project (window_size svc project_id) (lookup project svc.watermarks)
              (record svc {
                sequence_windows =
                    insert key (replace_sequence batch (window_at svc key)) svc.sequence_windows;
              }),
          Operation.ok (length batch.points) "derived hot window replaced",
        )
      ]

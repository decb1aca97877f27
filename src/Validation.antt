-- ===== src/Validation.antt =====
-- src/data_validation.cpp: what a value, a point, a batch and a window must satisfy. `none` is the
-- null pointer that the checks return on success.
pub mod Accepts
use time_series_engine.Base.{
  ℕ, Bool, true, false, not, ◌&&◌, ◌||◌, Option, none, some, List, [], ◌∷◌, String, len, is_empty,
  str_eq, ltb, ltb_ℤ, leb_ℤ, if◌then◌else◌,
}
use time_series_engine.Base.Checked.{first_error}
use time_series_engine.Floating.{Floating}
use time_series_engine.Types.{
  ProjectId, SequenceId, TimeseriesValue, TimeseriesValueKind, RawTimeseriesPoint, TimeseriesBatch,
  WindowData, AlignedSample, AlignedWindowData,
}

-- `kMaxSequenceIdBytes` and `kMaxStringValueBytes`
abbrev pub max_sequence_id_bytes : ℕ
max_sequence_id_bytes = 512

abbrev pub max_string_value_bytes : ℕ
max_string_value_bytes = 1024

unfoldable pub expected_value_kind : String → TimeseriesValueKind
expected_value_kind data_type =
    if str_eq data_type "double" || str_eq data_type "float" || str_eq data_type "continuous"
    then TimeseriesValueKind.double
    else if str_eq data_type "int"
        || str_eq data_type "int64"
        || str_eq data_type "integer"
        || str_eq data_type "discrete"
    then TimeseriesValueKind.int64
    else if str_eq data_type "bool" || str_eq data_type "boolean"
    then TimeseriesValueKind.boolean
    else if str_eq data_type "string"
        || str_eq data_type "text"
        || str_eq data_type "label"
        || str_eq data_type "categorical"
    then TimeseriesValueKind.text
    else TimeseriesValueKind.unknown

-- `!=` on kinds, negated.
unfoldable pub same_kind : TimeseriesValueKind → TimeseriesValueKind → Bool
same_kind TimeseriesValueKind.unknown TimeseriesValueKind.unknown = true
same_kind TimeseriesValueKind.double TimeseriesValueKind.double = true
same_kind TimeseriesValueKind.int64 TimeseriesValueKind.int64 = true
same_kind TimeseriesValueKind.boolean TimeseriesValueKind.boolean = true
same_kind TimeseriesValueKind.text TimeseriesValueKind.text = true
same_kind _ _ = false

module _ {D : Type 0} where
  unfoldable pub value_kind : TimeseriesValue D → TimeseriesValueKind
  value_kind (TimeseriesValue.double d) = TimeseriesValueKind.double
  value_kind (TimeseriesValue.int64 i) = TimeseriesValueKind.int64
  value_kind (TimeseriesValue.boolean b) = TimeseriesValueKind.boolean
  value_kind (TimeseriesValue.text s) = TimeseriesValueKind.text

  unfoldable pub validate_batch_context : ProjectId → TimeseriesBatch D → Option String
  validate_batch_context project_id batch =
      if is_empty project_id
      then some "project_id must not be empty"
      else if not (is_empty batch.project_id) && not (str_eq batch.project_id project_id)
      then some "batch project_id does not match request project_id"
      else none

module _ {D : Type 0} ⦃f : Floating D⦄ where
  -- The two tests of the payload in `validateValue`.
  unfoldable pub validate_payload : TimeseriesValue D → Option String
  validate_payload (TimeseriesValue.double d) =
      if f.is_finite d then none else some "double value must be finite"
  validate_payload (TimeseriesValue.text s) =
      if ltb max_string_value_bytes (len s)
      then some "string value exceeds storage capacity"
      else none
  validate_payload _ = none

  unfoldable pub validate_value : TimeseriesValue D → TimeseriesValueKind → Option String
  unfolding same_kind value_kind validate_payload
  validate_value value expected =
      if not (same_kind expected TimeseriesValueKind.unknown)
        && not (same_kind (value_kind value) expected)
      then some "value type does not match registered data_type"
      else validate_payload value

  unfoldable pub validate_raw_point : RawTimeseriesPoint D → Option String
  validate_raw_point point =
      if is_empty point.sequence_id
      then some "sequence_id must not be empty"
      else if ltb max_sequence_id_bytes (len point.sequence_id)
      then some "sequence_id exceeds storage capacity"
      else validate_value point.value TimeseriesValueKind.unknown

  -- The overload with a project.
  unfoldable pub validate_project_point : ProjectId → RawTimeseriesPoint D → Option String
  unfolding validate_raw_point
  validate_project_point project_id point =
      if not (is_empty point.project_id) && not (str_eq point.project_id project_id)
      then some "point project_id does not match request project_id"
      else validate_raw_point point

  -- One point under its map key.
  unfoldable pub validate_window_point :
      ProjectId → SequenceId → RawTimeseriesPoint D → Option String
  unfolding validate_project_point
  validate_window_point project_id sequence_id point =
      if not (str_eq point.sequence_id sequence_id)
      then some "window point sequence_id does not match its map key"
      else validate_project_point project_id point

  -- One entry of `sequence_values`.
  unfoldable pub validate_window_entry :
      ProjectId → SequenceId × List (RawTimeseriesPoint D) → Option String
  unfolding first_error validate_window_point
  validate_window_entry project_id (sequence_id, points) =
      if is_empty sequence_id
      then some "window sequence_id must not be empty"
      else if ltb max_sequence_id_bytes (len sequence_id)
      then some "sequence_id exceeds storage capacity"
      else first_error (validate_window_point project_id sequence_id) points

  unfoldable pub validate_window_data : ProjectId → WindowData D → Option String
  unfolding first_error validate_window_entry
  validate_window_data project_id w =
      if not (str_eq w.project_id project_id) && not (is_empty w.project_id)
      then some "window project_id does not match request project_id"
      else if ltb_ℤ w.window_end_time w.window_start_time
      then some "window start time must not be after end time"
      else first_error (validate_window_entry project_id) w.sequence_values

  -- The loop over neighbouring samples.
  unfoldable pub strictly_increasing : List (AlignedSample D) → Bool
  strictly_increasing [] = true
  strictly_increasing (a ∷ []) = true
  strictly_increasing (a ∷ b ∷ rest) = not (leb_ℤ b.time a.time) && strictly_increasing (b ∷ rest)

  -- One value of a sample.
  unfoldable pub validate_aligned_value : SequenceId × TimeseriesValue D → Option String
  validate_aligned_value (sequence_id, value) =
      if is_empty sequence_id
      then some "aligned value sequence_id must not be empty"
      else if ltb max_sequence_id_bytes (len sequence_id)
      then some "sequence_id exceeds storage capacity"
      else validate_value value TimeseriesValueKind.unknown

  unfoldable pub validate_aligned_sample : AlignedSample D → Option String
  unfolding first_error validate_aligned_value
  validate_aligned_sample s = first_error validate_aligned_value s.values

  unfoldable pub validate_aligned_window_data : ProjectId → AlignedWindowData D → Option String
  unfolding first_error strictly_increasing validate_aligned_sample
  validate_aligned_window_data project_id w =
      if not (str_eq w.project_id project_id) && not (is_empty w.project_id)
      then some "aligned window project_id does not match request project_id"
      else if ltb_ℤ w.window_end_time w.window_start_time
      then some "aligned window start time must not be after end time"
      else if not (strictly_increasing w.samples)
      then some "aligned sample times must be strictly increasing"
      else first_error validate_aligned_sample w.samples

-- ===== src/Ingest.antt =====
-- src/ingest_service.cpp: the points of a request are resolved to registered sequences.
pub mod Resolved
use time_series_engine.Base.{
  ℕ, zero, suc, ◌+◌, Bool, true, false, not, ◌||◌, ◌&&◌, Option, none, some, List, [], ◌∷◌, ◌++◌,
  length, String, ◌<>◌, is_empty, str_eq, ◌==◌, if◌then◌else◌,
}
use time_series_engine.Floating.{Floating}
use time_series_engine.Operation
use time_series_engine.Operation.{make_operation_result, invalid_argument}
use time_series_engine.Registry.{RuntimeConfigRegistry}
use time_series_engine.Registry.Lookups.{find_instance, resolve_sequence_id}
use time_series_engine.Types.{
  ProjectId, SequenceId, TimeseriesValue, TimeseriesIngestData, RawTimeseriesPoint, TimeseriesBatch,
  RuntimeInstanceConfig, OperationCode, OperationResult, IngestResult,
}

module _ {D : Type 0} where
  -- `std::holds_alternative`
  unfoldable pub is_double : TimeseriesValue D → Bool
  is_double (TimeseriesValue.double d) = true
  is_double _ = false

  unfoldable pub is_int64 : TimeseriesValue D → Bool
  is_int64 (TimeseriesValue.int64 i) = true
  is_int64 _ = false

  unfoldable pub is_boolean : TimeseriesValue D → Bool
  is_boolean (TimeseriesValue.boolean b) = true
  is_boolean _ = false

  unfoldable pub is_text : TimeseriesValue D → Bool
  is_text (TimeseriesValue.text s) = true
  is_text _ = false

  unfoldable pub value_matches_data_type : String → TimeseriesValue D → Bool
  unfolding is_double is_int64 is_boolean is_text
  value_matches_data_type data_type value =
      if is_empty data_type
      then true
      else if str_eq data_type "double" || str_eq data_type "float" || str_eq data_type "continuous"
      then is_double value
      else if str_eq data_type "int"
          || str_eq data_type "int64"
          || str_eq data_type "integer"
          || str_eq data_type "discrete"
      then is_int64 value
      else if str_eq data_type "bool" || str_eq data_type "boolean"
      then is_boolean value
      else if str_eq data_type "string"
          || str_eq data_type "text"
          || str_eq data_type "label"
          || str_eq data_type "categorical"
      then is_text value
      else true

-- `!mapped || *mapped != *point.sequence_id`
unfoldable pub mismatches : Option SequenceId → SequenceId → Bool
mismatches none id = true
mismatches (some mapped) id = not (str_eq mapped id)

-- `resolved_sequence_id` and `instance_config` of a round, or its error.
pub data Identity : Type 0 where
  identified : SequenceId → Option RuntimeInstanceConfig → Identity
  unidentified : OperationCode → String → Identity

-- One round of the loop: the resolved point, or the error.
pub data PointOutcome (D : Type 0) : Type 0 where
  resolved : RawTimeseriesPoint D → PointOutcome D
  failed : OperationCode → String → PointOutcome D

module _ {D : Type 0} where
  -- The branch of a point that names its sequence.
  unfoldable pub identify_named :
      RuntimeConfigRegistry D → ProjectId → TimeseriesIngestData D → SequenceId → Identity
  unfolding mismatches
  identify_named r project_id point id =
      if is_empty id
      then unidentified OperationCode.invalid_argument "sequence_id must not be empty"
      else elim (find_instance r project_id id) [
        | none ↦ unidentified OperationCode.not_found ("sequence is not registered: " <> id)
        | some config ↦
            if (not (is_empty point.data_source_id) && not (is_empty point.external_sequence_id))
              && mismatches
                  (resolve_sequence_id r project_id point.data_source_id point.external_sequence_id)
                  id
            then unidentified OperationCode.invalid_argument
                ("external identifiers do not match sequence_id: " <> id)
            else identified id (some config)
      ]

  -- The branch of a point with external identifiers.
  unfoldable pub identify_external :
      RuntimeConfigRegistry D → ProjectId → TimeseriesIngestData D → Identity
  identify_external r project_id point =
      if is_empty point.data_source_id || is_empty point.external_sequence_id
      then unidentified OperationCode.invalid_argument
          "sequence_id or both external identifiers are required"
      else elim (resolve_sequence_id r project_id point.data_source_id point.external_sequence_id) [
        | none ↦ unidentified OperationCode.not_found (
            "sequence is not registered for external identifiers: "
            <> (point.data_source_id <> (":" <> point.external_sequence_id)))
        | some id ↦ identified id (find_instance r project_id id)
      ]

  unfoldable pub identify : RuntimeConfigRegistry D → ProjectId → TimeseriesIngestData D → Identity
  unfolding identify_named identify_external
  identify r project_id point = elim point.sequence_id [
    | none ↦ identify_external r project_id point
    | some id ↦ identify_named r project_id point id
  ]

  -- `!instance_config || !valueMatchesDataType(...)`
  unfoldable pub type_mismatch : Option RuntimeInstanceConfig → TimeseriesValue D → Bool
  type_mismatch none value = true
  type_mismatch (some config) value = not (value_matches_data_type config.data_type value)

-- The variables of the loop.
pub record Resolution (D : Type 0) : Type 0 where
  pub points : List (RawTimeseriesPoint D)
  pub failed_count : ℕ
  pub first_error_code : OperationCode
  pub first_error : String

module _ {D : Type 0} where
  abbrev pub initial_resolution : Resolution D
  initial_resolution = record {
    points = [];
    failed_count = 0;
    first_error_code = OperationCode.invalid_argument;
    first_error = "";
  }

module _ {D : Type 0} ⦃f : Floating D⦄ where
  unfoldable pub is_not_finite : TimeseriesValue D → Bool
  is_not_finite (TimeseriesValue.double d) = not (f.is_finite d)
  is_not_finite _ = false

  -- The checks that stand behind the resolution of a point.
  unfoldable pub check_identified : ProjectId → TimeseriesIngestData D → Identity → PointOutcome D
  check_identified project_id point (unidentified code error) = failed code error
  check_identified project_id point (identified id config) =
      if type_mismatch config point.value
      then failed OperationCode.invalid_argument "value type does not match registered data_type"
      else if is_not_finite point.value
      then failed OperationCode.invalid_argument "double value must be finite"
      else resolved (record {
        time = point.time;
        sequence_id = id;
        value = point.value;
        project_id = project_id;
      })

  unfoldable pub resolve_point :
      RuntimeConfigRegistry D → ProjectId → TimeseriesIngestData D → PointOutcome D
  unfolding check_identified
  resolve_point r project_id point = check_identified project_id point (identify r project_id point)

  unfoldable pub record_outcome : PointOutcome D → Resolution D → Resolution D
  record_outcome (resolved point) acc = record acc { points = acc.points ++ point ∷ [] }
  record_outcome (failed code error) acc =
      if is_empty acc.first_error
      then record acc {
        failed_count = acc.failed_count + 1;
        first_error_code = code;
        first_error = error;
      }
      else record acc { failed_count = acc.failed_count + 1 }

  unfoldable pub resolve_loop :
      RuntimeConfigRegistry D
      → ProjectId
      → List (TimeseriesIngestData D)
      → Resolution D
      → Resolution D
  unfolding record_outcome
  resolve_loop r project_id [] acc = acc
  resolve_loop r project_id (point ∷ points) acc =
      resolve_loop r project_id points (record_outcome (resolve_point r project_id point) acc)

  -- The result that the counts call for.
  unfoldable pub summarize : Resolution D → OperationResult
  unfolding make_operation_result
  summarize acc =
      if length acc.points == 0
      then make_operation_result acc.first_error_code 0 acc.failed_count
          (if is_empty acc.first_error then "no ingest points were resolved" else acc.first_error)
      else if not (acc.failed_count == 0)
      then make_operation_result OperationCode.partial_success (length acc.points) acc.failed_count
          ("some ingest points could not be resolved: " <> acc.first_error)
      else Operation.ok (length acc.points) "ingest points resolved"

  unfoldable pub ingest_and_resolve_data :
      RuntimeConfigRegistry D → ProjectId → List (TimeseriesIngestData D) → IngestResult D
  unfolding resolve_loop summarize
  ingest_and_resolve_data r project_id [] = record {
    operation = invalid_argument "ingest points must not be empty";
    resolved_data = record { points = []; project_id = project_id };
    project_id = project_id;
  }
  ingest_and_resolve_data r project_id (point ∷ points) =
      let acc = resolve_loop r project_id (point ∷ points) initial_resolution in
      record {
        operation = summarize acc;
        resolved_data = record { points = acc.points; project_id = project_id };
        project_id = project_id;
      }

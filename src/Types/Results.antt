-- ===== src/Types/Results.antt =====
-- types.hpp: result codes and the results of the services.
use time_series_engine.Base.{ℕ, Bool, String, Option, List}
use time_series_engine.Types.Values.{Timestamp, ProjectId, SequenceId, TimeseriesBatch, WindowData}
use time_series_engine.Types.Config.{ConstraintAggregation}

pub data OperationCode : Type 0 where
  ok partial_success invalid_argument not_found failed_precondition : OperationCode
  unavailable internal_error not_implemented : OperationCode

pub record OperationResult : Type 0 where
  pub code : OperationCode
  pub success_count : ℕ
  pub failed_count : ℕ
  pub message : String

pub record ConstraintTermValue (D : Type 0) : Type 0 where
  pub variable : String
  pub sequence_id : SequenceId
  pub coefficient : D
  pub sample_offset : ℕ
  pub sample_time : Timestamp
  pub value : D
  pub aggregation : ConstraintAggregation

pub record ConstraintViolation (D : Type 0) : Type 0 where
  pub constraint_id : String
  pub anchor_time : Timestamp
  pub lower_bound : Option D
  pub upper_bound : Option D
  pub evaluated_value : D
  pub term_values : List (ConstraintTermValue D)
  pub or_group_id : String

pub record ConstraintCheckResult (D : Type 0) : Type 0 where
  pub operation : OperationResult
  pub project_id : ProjectId
  pub evaluated_count : ℕ
  pub pending_count : ℕ
  pub satisfied : Bool
  pub violations : List (ConstraintViolation D)

pub record IngestResult (D : Type 0) : Type 0 where
  pub operation : OperationResult
  pub resolved_data : TimeseriesBatch D
  pub project_id : ProjectId

pub record WindowQueryResult (D : Type 0) : Type 0 where
  pub operation : OperationResult
  pub data_ : WindowData D
  pub project_id : ProjectId

-- ===== src/Executor.antt =====
-- src/grpc/ingest_task_executor.cpp: configured sizes, and the merge of the writers' results.
pub mod Configured
pub mod Merged
pub mod Routing
pub mod Writers
pub mod Sharded
pub mod Pipeline
pub mod Ordered
pub mod Admitted
pub mod Queue
pub mod Reachable
pub mod HotWork
pub mod Progress
pub mod BatchKeys
pub mod Submit
pub mod Places
pub mod Lanes
pub mod LaneSteps
pub mod Counted
pub mod Drained
use Prim.Native.Char.{Char, code}
use time_series_engine.Base.{
  ℕ, ◌+◌, ◌-◌, ◌*◌, ◌/◌, ◌==◌, ltb, leb, Bool, true, false, not, ◌&&◌, ◌||◌, Option, none, some,
  String, ◌<>◌, str_eq, is_empty, if◌then◌else◌, List, [], ◌∷◌,
}
use time_series_engine.Types.{OperationCode, OperationResult}

-- The loop of `configuredSize`: `none` where it returns the fallback. `maximum` is above 9 in every
-- call, so that its subtraction does not wrap.
unfoldable pub scan_digits : ℕ → String → ℕ → Option ℕ
scan_digits maximum String.[] value = some value
scan_digits maximum (String.◌∷◌ c text) value =
    let digit = code c - 48 in
    let rest = scan_digits maximum text (value * 10 + digit) in
    if ltb (code c) 48 || ltb 57 (code c)
    then none
    else if ltb ((maximum - digit) / 10) value
    then none
    else rest

-- `configuredSize`: the text is what `std::getenv` gives.
unfoldable pub configured_size : Option String → ℕ → ℕ → ℕ
unfolding scan_digits
configured_size none fallback maximum = fallback
configured_size (some text) fallback maximum =
    if is_empty text then fallback else elim (scan_digits maximum text 0) [
      | none ↦ fallback
      | some value ↦ if value == 0 || ltb maximum value then fallback else value
    ]

unfoldable pub is_successful : OperationCode → Bool
is_successful OperationCode.ok = true
is_successful OperationCode.partial_success = true
is_successful _ = false

unfoldable pub is_partial : OperationCode → Bool
is_partial OperationCode.partial_success = true
is_partial _ = false

unfoldable pub merged_code : OperationResult → OperationResult → OperationCode
unfolding is_successful is_partial
merged_code aggregate part =
    if not (is_successful aggregate.code) || not (is_successful part.code)
    then if aggregate.success_count + part.success_count == 0
      then aggregate.code
      else OperationCode.partial_success
    else if is_partial aggregate.code || is_partial part.code
    then OperationCode.partial_success
    else aggregate.code

unfoldable pub merged_message : String → String → String
merged_message aggregate part =
    if not (is_empty part) && not (str_eq part aggregate)
    then (if not (is_empty aggregate) then aggregate <> "; " else aggregate) <> part
    else aggregate

-- `mergeStorageResult`: no aggregate is there before the first part.
unfoldable pub merge_storage_result : Option OperationResult → OperationResult → OperationResult
unfolding merged_code merged_message
merge_storage_result none part = part
merge_storage_result (some aggregate) part = record {
  code = merged_code aggregate part;
  success_count = aggregate.success_count + part.success_count;
  failed_count = aggregate.failed_count + part.failed_count;
  message = merged_message aggregate.message part.message;
}

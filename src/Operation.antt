-- ===== src/Operation.antt =====
-- src/operation_helpers.hpp: the constructors of operation results.
use time_series_engine.Base.{ℕ, String, ◌<>◌}
use time_series_engine.Types.{OperationCode, OperationResult}

unfoldable pub make_operation_result : OperationCode → ℕ → ℕ → String → OperationResult
make_operation_result code success_count failed_count message = record {
  code = code;
  success_count = success_count;
  failed_count = failed_count;
  message = message;
}

unfoldable pub not_implemented : String → ℕ → OperationResult
unfolding make_operation_result
not_implemented operation failed_count =
    make_operation_result OperationCode.not_implemented 0 failed_count
      (operation <> " is not implemented in the shell stage")

unfoldable pub invalid_argument : String → OperationResult
unfolding make_operation_result
invalid_argument message = make_operation_result OperationCode.invalid_argument 0 0 message

unfoldable pub ok : ℕ → String → OperationResult
unfolding make_operation_result
ok success_count message = make_operation_result OperationCode.ok success_count 0 message

-- ===== src/Window/Answer.antt =====
-- `queryWindowData` of src/window_service.cpp.
use time_series_engine.Base.{
  ℕ, ◌+◌, ℤ, pos, leb_ℤ, ltb_ℤ, Bool, false, Option, none, some, List, [], ◌∷◌, ◌++◌, is_empty,
  if◌then◌else◌, value_or, length, is_nil,
}
use time_series_engine.Base.Assoc.{Table, lookup, insert, erase}
use time_series_engine.Base.Checked.{Checked, accepted, rejected, ◌>>=◌}
use time_series_engine.Operation
use time_series_engine.Operation.{invalid_argument}
use time_series_engine.Types.{
  Timestamp, ProjectId, SequenceId, OperationResult, RawTimeseriesPoint, WindowQueryResult,
}
use time_series_engine.Window.{SequenceWindow}
use time_series_engine.Window.Query.{read_sequence}
use time_series_engine.Window.Service.{
  WindowService, effective_project, scoped_sequence_key, window_size, live_end_of, start_of_window,
}

pub record WindowQuery : Type 0 where
  pub sequence_ids : List SequenceId
  pub start_time : Option Timestamp
  pub end_time : Option Timestamp
  pub preceding_points : ℕ
  pub following_points : ℕ
  pub preserve_window_bounds : Bool
  pub project_id : ProjectId

-- `query.start_time && query.end_time && *query.start_time > *query.end_time`
unfoldable pub is_reversed : Option Timestamp → Option Timestamp → Bool
is_reversed (some start) (some end) = ltb_ℤ end start
is_reversed (some start) none = false
is_reversed none end = false

module _ {D : Type 0} where
  -- What one sequence adds to the answer: its points, or nothing if there are none at all.
  unfoldable pub add_answer :
      SequenceId
      → List (RawTimeseriesPoint D)
      → Table (List (RawTimeseriesPoint D))
      → Table (List (RawTimeseriesPoint D))
  unfolding lookup insert erase
  add_answer id points values =
      let output = value_or (lookup id values) [] ++ points in
      if is_nil output then erase id values else insert id output values

  abbrev pub empty_answer : ProjectId → OperationResult → WindowQueryResult D
  empty_answer project operation = record {
    operation = operation;
    data_ = record {
      window_start_time = pos 0;
      window_end_time = pos 0;
      sequence_values = [];
      project_id = project;
    };
    project_id = project;
  }

module _ {D L : Type 0} where
  -- The windows that are there for the asked sequences.
  unfoldable pub find_sequences :
      ProjectId
      → List SequenceId
      → WindowService D L
      → Checked (List (SequenceId × SequenceWindow D L))
  unfolding lookup scoped_sequence_key
  find_sequences project [] svc = accepted []
  find_sequences project (id ∷ ids) svc =
      (if is_empty id then rejected "window query sequence_id must not be empty" else accepted tt)
      >>= λ _. find_sequences project ids svc >>= λ rest.
          accepted (elim (lookup (scoped_sequence_key project id) svc.sequence_windows) [
            | none ↦ rest
            | some w ↦ (id, w) ∷ rest
          ])

  -- The loop over the sequences: `sequence_values` and `count`.
  unfoldable pub read_all :
      WindowQuery
      → Timestamp
      → Timestamp
      → List (SequenceId × SequenceWindow D L)
      → Table (List (RawTimeseriesPoint D)) × ℕ
      → Table (List (RawTimeseriesPoint D)) × ℕ
  unfolding read_sequence add_answer
  read_all query start end [] answer = answer
  read_all query start end ((id, w) ∷ sequences) answer =
      let points = read_sequence query.preceding_points query.following_points start end w in
      read_all query start end sequences (add_answer id points answer.0, answer.1 + length points)

  -- What stands behind the look at the index.
  unfoldable pub answer_query :
      ProjectId
      → WindowQuery
      → ℤ
      → List (SequenceId × SequenceWindow D L)
      → Option Timestamp
      → WindowQueryResult D
  unfolding live_end_of start_of_window read_all
  answer_query project query size sequences none =
      empty_answer project (Operation.ok 0 "window is empty")
  answer_query project query size sequences (some watermark) =
      let live_end = live_end_of watermark in
      let live_start = start_of_window live_end size in
      let end = value_or query.end_time live_end in
      let start = value_or query.start_time live_start in
      let answer = read_all query start end sequences ([], 0) in
      if leb_ℤ size (pos 0)
      then empty_answer project (Operation.ok 0 "window is empty")
      else if ltb_ℤ end start
      then empty_answer project (invalid_argument "window query time range is invalid")
      else record {
        operation = Operation.ok answer.1 "window query completed";
        data_ = record {
          window_start_time = if query.preserve_window_bounds then live_start else start;
          window_end_time = if query.preserve_window_bounds then live_end else end;
          sequence_values = answer.0;
          project_id = project;
        };
        project_id = project;
      }

  unfoldable pub query_window_data :
      ProjectId → WindowQuery → WindowService D L → WindowQueryResult D
  unfolding effective_project is_reversed find_sequences lookup window_size answer_query
  query_window_data project_id query svc =
      let project = effective_project project_id in
      if is_nil query.sequence_ids
      then empty_answer project (invalid_argument "window query sequence_ids must not be empty")
      else if is_reversed query.start_time query.end_time
      then empty_answer project
          (invalid_argument "window query start_time must not be after end_time")
      else elim (find_sequences project query.sequence_ids svc) [
        | rejected error ↦ empty_answer project (invalid_argument error)
        | accepted sequences ↦
            answer_query project query (window_size svc project_id) sequences
              (lookup project svc.watermarks)
      ]

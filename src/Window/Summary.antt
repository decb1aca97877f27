-- ===== src/Window/Summary.antt =====
-- `queryWindowStatistics` of src/window_service.cpp.
use time_series_engine.Base.{
  ℕ, ◌+◌, ◌==◌, ℤ, pos, leb_ℤ, not, Option, none, some, List, [], ◌∷◌, String, ◌<>◌, is_empty,
  if◌then◌else◌, is_nil,
}
use time_series_engine.Base.Assoc.{Table, lookup, insert, emplace, contains}
use time_series_engine.Base.Checked.{Checked, accepted, rejected, ◌>>=◌}
use time_series_engine.Floating.{Floating, Extended}
use time_series_engine.Operation
use time_series_engine.Operation.{invalid_argument}
use time_series_engine.Types.{Timestamp, ProjectId, SequenceId, OperationResult}
use time_series_engine.Window.{SequenceWindow}
use time_series_engine.Window.Sequence.{rebuild_statistics}
use time_series_engine.Window.Service.{
  WindowService, effective_project, scoped_sequence_key, window_size, window_at, live_end_of,
  start_of_window,
}

pub record SequenceWindowStatistics (D : Type 0) : Type 0 where
  pub count : ℕ
  pub average : D
  pub maximum : D
  pub minimum : D

pub record WindowStatisticsData (D : Type 0) : Type 0 where
  pub window_start_time : Timestamp
  pub window_end_time : Timestamp
  pub sequence_statistics : Table (SequenceWindowStatistics D)
  pub project_id : ProjectId

pub record WindowStatisticsResult (D : Type 0) : Type 0 where
  pub operation : OperationResult
  pub data_ : WindowStatisticsData D

-- What one sequence gives: no statistics, an error, or its statistics.
pub data Summary (D : Type 0) : Type 0 where
  no_points : Summary D
  unusable : String → Summary D
  summary : SequenceWindowStatistics D → Summary D

module _ {D : Type 0} where
  abbrev pub empty_statistics : ProjectId → OperationResult → WindowStatisticsResult D
  empty_statistics project operation = record {
    operation = operation;
    data_ = record {
      window_start_time = pos 0;
      window_end_time = pos 0;
      sequence_statistics = [];
      project_id = project;
    };
  }

  -- How a summary goes on: an error ends the loop.
  unfoldable pub add_summary :
      SequenceId
      → Summary D
      → Table (SequenceWindowStatistics D) × ℕ
      → Checked (Table (SequenceWindowStatistics D) × ℕ)
  unfolding emplace
  add_summary id no_points acc = accepted acc
  add_summary id (unusable error) acc = rejected error
  add_summary id (summary s) acc = accepted (emplace id s acc.0, acc.1 + s.count)

  unfoldable pub statistics_result :
      ProjectId
      → Timestamp
      → ℤ
      → Checked (Table (SequenceWindowStatistics D) × ℕ)
      → WindowStatisticsResult D
  unfolding start_of_window live_end_of
  statistics_result project watermark size measured =
      let data_of = λ (values : Table (SequenceWindowStatistics D)).
        record (empty_statistics project (Operation.ok 0 "")).data_ {
          window_start_time = start_of_window watermark size;
          window_end_time = live_end_of watermark;
          sequence_statistics = values;
        } in
      elim measured [
        | rejected error ↦ record { operation = invalid_argument error; data_ = data_of [] }
        | accepted acc ↦ record {
          operation = Operation.ok acc.1 "window statistics query completed";
          data_ = data_of acc.0;
        }
      ]

module _ {D : Type 0} ⦃f : Floating D⦄ where
  -- The fronts of the deques are read where the average is finite and both have one.
  unfoldable pub fronts :
      SequenceId → ℕ → D → List (Timestamp × D) → List (Timestamp × D) → Summary D
  fronts id count average ((t, low) ∷ lows) ((u, high) ∷ highs) =
      if not (f.is_finite average)
      then unusable ("window aggregate statistics are not finite for sequence: " <> id)
      else summary (record { count = count; average = average; maximum = high; minimum = low })
  fronts id count average [] highs =
      unusable ("window aggregate statistics are not finite for sequence: " <> id)
  fronts id count average (low ∷ lows) [] =
      unusable ("window aggregate statistics are not finite for sequence: " <> id)

module _ {D L : Type 0} ⦃f : Floating D⦄ ⦃x : Extended D L⦄ where
  -- The body of the loop, after the statistics were brought up to date.
  unfoldable pub summarize_window : SequenceId → SequenceWindow D L → Summary D
  unfolding fronts
  summarize_window id w =
      if not (w.statistics_non_numeric_count == 0)
      then unusable
          ("window aggregate constraint values must be finite numeric values for sequence: " <> id)
      else if w.statistics_count == 0
      then no_points
      else fronts id w.statistics_count (x.average w.statistics_sum w.statistics_count)
          w.statistics_minimum w.statistics_maximum

  unfoldable pub refreshed : SequenceWindow D L → SequenceWindow D L
  unfolding rebuild_statistics
  refreshed w = if not w.statistics_valid then rebuild_statistics w else w

  -- The asked sequences that have a window.
  unfoldable pub known_sequences :
      ProjectId → List SequenceId → WindowService D L → Checked (List SequenceId)
  unfolding lookup scoped_sequence_key
  known_sequences project [] svc = accepted []
  known_sequences project (id ∷ ids) svc =
      (if is_empty id
        then rejected "window statistics sequence_id must not be empty"
        else accepted tt)
      >>= λ _. known_sequences project ids svc >>= λ rest. accepted (
          if contains (scoped_sequence_key project id) svc.sequence_windows
          then id ∷ rest
          else rest)

  -- The loop: a window whose statistics are not valid is rebuilt where it stands, also if the query
  -- fails later on.
  unfoldable pub measure_all :
      ProjectId
      → List SequenceId
      → WindowService D L
      → Table (SequenceWindowStatistics D) × ℕ
      → WindowService D L × Checked (Table (SequenceWindowStatistics D) × ℕ)
  unfolding scoped_sequence_key window_at refreshed insert summarize_window add_summary
  measure_all project [] svc acc = (svc, accepted acc)
  measure_all project (id ∷ ids) svc acc =
      let key = scoped_sequence_key project id in
      let w = refreshed (window_at svc key) in
      let svc' = record svc { sequence_windows = insert key w svc.sequence_windows } in
      elim (add_summary id (summarize_window id w) acc) [
        | rejected error ↦ (svc', rejected error)
        | accepted acc' ↦ measure_all project ids svc' acc'
      ]

  -- What stands behind the look at the index.
  unfoldable pub measure_known :
      ProjectId
      → ℤ
      → List SequenceId
      → WindowService D L
      → Option Timestamp
      → WindowService D L × WindowStatisticsResult D
  unfolding measure_all statistics_result
  measure_known project size ids svc none =
      (svc, empty_statistics project (Operation.ok 0 "window statistics are empty"))
  measure_known project size ids svc (some watermark) =
      let (svc', measured) = measure_all project ids svc ([], 0) in
      if leb_ℤ size (pos 0)
      then (svc, empty_statistics project (Operation.ok 0 "window statistics are empty"))
      else (svc', statistics_result project watermark size measured)

  unfoldable pub query_window_statistics :
      ProjectId → List SequenceId → WindowService D L → WindowService D L × WindowStatisticsResult D
  unfolding effective_project known_sequences lookup window_size measure_known
  query_window_statistics project_id sequence_ids svc =
      let project = effective_project project_id in
      if is_nil sequence_ids
      then (
        svc,
        empty_statistics project
            (invalid_argument "window statistics sequence_ids must not be empty"),
      )
      else elim (known_sequences project sequence_ids svc) [
        | rejected error ↦ (svc, empty_statistics project (invalid_argument error))
        | accepted ids ↦
            measure_known project (window_size svc project_id) ids svc
              (lookup project svc.watermarks)
      ]

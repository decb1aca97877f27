-- ===== src/Window/Batch.antt =====
-- `updateWindowIncremental` of src/window_service.cpp: one accepted batch on the windows of a project.
-- The sums of waiting and working times and the numbers of tasks in the result are left out.
use time_series_engine.Base.{
  ℕ, ◌+◌, ◌==◌, ltb_ℤ, Bool, false, not, ◌&&◌, ◌||◌, Option, none, some, List, [], ◌∷◌, ◌++◌,
  String, if◌then◌else◌, value_or,
}
use time_series_engine.Base.Assoc.{Table, lookup, insert, has_id}
use time_series_engine.Floating.{Floating, Extended}
use time_series_engine.Types.{Timestamp, ProjectId, SequenceId, OperationResult, RawTimeseriesPoint}
use time_series_engine.Validation.{validate_project_point}
use time_series_engine.Window.Points.{is_strictly_increasing}
use time_series_engine.Window.Sequence.{prepare, update_sequence}
use time_series_engine.Window.Service.{WindowService, scoped_sequence_key, window_at}

pub record SequenceWindowUpdate : Type 0 where
  pub affected_start_time : Option Timestamp
  pub affected_end_time : Option Timestamp
  pub incremental_safe : Bool
  pub window_evicted : Bool

pub record WindowUpdateResult : Type 0 where
  pub operation : OperationResult
  pub project_id : ProjectId
  pub changed_sequence_ids : List SequenceId
  pub sequence_updates : Table SequenceWindowUpdate
  pub affected_start_time : Option Timestamp
  pub affected_end_time : Option Timestamp
  pub window_start_time : Option Timestamp
  pub update_generation : ℕ
  pub incremental_safe : Bool
  pub window_evicted : Bool

abbrev pub no_update : SequenceWindowUpdate
no_update = record {
  affected_start_time = none;
  affected_end_time = none;
  incremental_safe = false;
  window_evicted = false;
}

abbrev pub empty_result : ProjectId → OperationResult → WindowUpdateResult
empty_result project operation = record {
  operation = operation;
  project_id = project;
  changed_sequence_ids = [];
  sequence_updates = [];
  affected_start_time = none;
  affected_end_time = none;
  window_start_time = none;
  update_generation = 0;
  incremental_safe = false;
  window_evicted = false;
}

-- `!start || time < *start`, and the same for the end.
unfoldable pub earlier : Timestamp → Option Timestamp → Option Timestamp
earlier time none = some time
earlier time (some start) = some (if ltb_ℤ time start then time else start)

unfoldable pub later : Timestamp → Option Timestamp → Option Timestamp
later time none = some time
later time (some end) = some (if ltb_ℤ end time then time else end)

-- 2^64 - 1
abbrev pub last_generation : ℕ
last_generation = 18446744073709551615

unfoldable pub next_generation : ℕ → ℕ
next_generation generation = if generation == last_generation then generation else generation + 1

-- `sequence_updates[sequence_id]`
abbrev pub update_of : SequenceId → WindowUpdateResult → SequenceWindowUpdate
update_of id result = value_or (lookup id result.sequence_updates) no_update

module _ {D : Type 0} where
  -- The body of the loop over the points, behind its check.
  unfoldable pub gather_point :
      RawTimeseriesPoint D
      → WindowUpdateResult × Table (List (RawTimeseriesPoint D))
      → WindowUpdateResult × Table (List (RawTimeseriesPoint D))
  unfolding has_id insert lookup earlier later
  gather_point p (result, incoming) =
      let id = p.sequence_id in
      let update = update_of id result in
      (
        record result {
          changed_sequence_ids =
              if has_id id result.changed_sequence_ids
              then result.changed_sequence_ids
              else result.changed_sequence_ids ++ id ∷ [];
          sequence_updates =
              insert id
                (record update {
                  affected_start_time = earlier p.time update.affected_start_time;
                  affected_end_time = later p.time update.affected_end_time;
                })
                result.sequence_updates;
          affected_start_time = earlier p.time result.affected_start_time;
          affected_end_time = later p.time result.affected_end_time;
        },
        insert id (value_or (lookup id incoming) [] ++ p ∷ []) incoming,
      )

  -- The loop over the watermark; whether there was one is asked once, before it.
  unfoldable pub raise_watermark : Bool → List (RawTimeseriesPoint D) → Timestamp → Timestamp
  raise_watermark had [] watermark = watermark
  raise_watermark had (p ∷ ps) watermark =
      raise_watermark had ps (if not had || ltb_ℤ watermark p.time then p.time else watermark)

module _ {D : Type 0} ⦃f : Floating D⦄ where
  -- The loop over the points: what it has gathered when it ends, and its error.
  unfoldable pub gather :
      ProjectId
      → List (RawTimeseriesPoint D)
      → WindowUpdateResult × Table (List (RawTimeseriesPoint D))
      → Option String × (WindowUpdateResult × Table (List (RawTimeseriesPoint D)))
  unfolding validate_project_point gather_point
  gather project [] g = (none, g)
  gather project (p ∷ ps) g = elim (validate_project_point project p) [
    | some error ↦ (some error, g)
    | none ↦ gather project ps (gather_point p g)
  ]

module _ {D L : Type 0} ⦃f : Floating D⦄ ⦃x : Extended D L⦄ where
  -- The updates of the sequences that the batch brings points for, and what their timings report.
  unfoldable pub update_sequences :
      ProjectId
      → Table (List (RawTimeseriesPoint D))
      → WindowService D L × WindowUpdateResult
      → WindowService D L × WindowUpdateResult
  unfolding scoped_sequence_key window_at update_sequence prepare is_strictly_increasing insert
      lookup
  update_sequences project [] state = state
  update_sequences project ((id, incoming) ∷ others) (svc, result) =
      let key = scoped_sequence_key project id in
      let (w, safe) =
        update_sequence (is_strictly_increasing incoming) (prepare incoming) (window_at svc key) in
      update_sequences project others (
        record svc { sequence_windows = insert key w svc.sequence_windows },
        record result {
          incremental_safe = safe && result.incremental_safe;
          sequence_updates =
              insert id (record (update_of id result) { incremental_safe = safe })
                result.sequence_updates;
        },
      )

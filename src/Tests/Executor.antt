-- ===== src/Tests/Executor.antt =====
-- The theorems on configured sizes and merged results at concrete inputs.
use time_series_engine.Base.{◌+◌, ℕ, get_elem?, ◌≤◌, ◌≡◌, refl, true, ℤ, pos, some, arith, [], ◌∷◌}
use time_series_engine.Base.Assoc.{has_id, lookup}
use time_series_engine.Tests.Data.{point_at}
use time_series_engine.Types.{TimeseriesBatch, OperationCode, OperationResult}
use time_series_engine.Executor.{configured_size, scan_digits}
use time_series_engine.Executor.Routing.{Routing, shard_batch}
use time_series_engine.Executor.Writers.{IsRouting}
use time_series_engine.Executor.Sharded.{IsSharded, shard_batch-IsSharded}
use time_series_engine.Executor.Pipeline.{
  Task, Pipeline, Phase, try_submit, admit, link_tails, push_cold, modify, to_phase, end_hot_lane,
  end_cold_write, close_lane, ColdWorker, cold_take, cold_done, busy_workers, idle_pipeline,
  PhaseIs, Reaches, start, later, work, submit, hot_take, hot_start, hot_done, hot_close,
}
use time_series_engine.Executor.Drained.{IsDrained, all_tasks_end}
use time_series_engine.Executor.Places.{
  cold_counting_off, open_tasks, hot_lane, HasHotLane, queued_in, written_in,
}
use time_series_engine.Executor.Counted.{pending_tasks_count}
use time_series_engine.Executor.BatchKeys.{submit_batch}
use time_series_engine.Executor.Submit.{IsSubmitted, submit_batch-IsSubmitted}
use time_series_engine.Executor.Reachable.{hot_updates_in_order}
use time_series_engine.Executor.Progress.{WorkerRun}
use time_series_engine.Executor.Configured.{decimal, in_range, configured_size-decimal}
use time_series_engine.Executor.Merged.{
  is_ok, are_ok, successes, failures, merge_all, merge_all-all,
}

configured_size-decimal_example : configured_size (some "37") 4 64 ≡ in_range (decimal "37" 0) 4 64
configured_size-decimal_example = configured_size-decimal "37" 4 64 (omega arith) refl

configured_size_37 : configured_size (some "37") 4 64 ≡ 37
unfolding configured_size scan_digits
configured_size_37 = refl

abbrev stored : OperationResult
stored = record { code = OperationCode.ok; success_count = 2; failed_count = 0; message = "" }

abbrev lost : OperationResult
lost = record {
  code = OperationCode.unavailable;
  success_count = 0;
  failed_count = 3;
  message = "gone";
}

merge_all-all_example :
    (is_ok (merge_all stored (lost ∷ stored ∷ [])).code ≡ are_ok (stored ∷ lost ∷ stored ∷ []))
    × (((merge_all stored (lost ∷ stored ∷ [])).success_count
          ≡ successes (stored ∷ lost ∷ stored ∷ []))
        × ((merge_all stored (lost ∷ stored ∷ [])).failed_count
            ≡ failures (stored ∷ lost ∷ stored ∷ [])))
merge_all-all_example = merge_all-all stored (lost ∷ stored ∷ []) (λ e. omega arith)

-- Two tasks of one sequence, of which the second is in its hot update.
abbrev one_accepted : Pipeline
one_accepted = (try_submit 8 1 ("k" ∷ []) (true ∷ []) (idle_pipeline 1)).0

abbrev two_accepted : Pipeline
two_accepted = (try_submit 8 1 ("k" ∷ []) (true ∷ []) one_accepted).0

abbrev first_taken : Pipeline
first_taken = record two_accepted {
  tasks = modify 0 (to_phase Phase.waiting) two_accepted.tasks;
  hot_queue = 1 ∷ [];
}

abbrev first_begun : Pipeline
first_begun = record first_taken { tasks = modify 0 (to_phase Phase.updating) first_taken.tasks }

abbrev first_ended : Pipeline
first_ended =
    end_hot_lane 0
      (record first_begun { tasks = modify 0 (to_phase Phase.finished) first_begun.tasks })

abbrev second_taken : Pipeline
second_taken = record first_ended {
  tasks = modify 1 (to_phase Phase.waiting) first_ended.tasks;
  hot_queue = [];
}

abbrev second_begun : Pipeline
second_begun = record second_taken { tasks = modify 1 (to_phase Phase.updating) second_taken.tasks }

two_accepted-Reaches : Reaches 1 8 1 two_accepted
unfolding has_id
two_accepted-Reaches =
    later (later start (submit 1 ("k" ∷ []) (true ∷ []) (refl, tt) refl))
      (submit 1 ("k" ∷ []) (true ∷ []) (refl, tt) refl)

second_begun-Reaches : Reaches 1 8 1 second_begun
unfolding try_submit admit link_tails push_cold modify end_hot_lane close_lane busy_workers
second_begun-Reaches =
    later
      (later
        (later
          (later
            (later (later two_accepted-Reaches (work (hot_take 0 (1 ∷ []) refl (omega arith))))
              (work (hot_start 0 _ refl refl tt)))
            (work (hot_done 0 (_, refl, refl))))
          (work (hot_close 0 _ refl refl refl)))
        (work (hot_take 1 [] refl (omega arith))))
      (work (hot_start 1 _ refl refl ((_, refl, refl), tt)))

hot_updates_in_order_example : PhaseIs Phase.finished second_begun.tasks 0
unfolding try_submit admit link_tails push_cold modify end_hot_lane close_lane has_id
hot_updates_in_order_example =
    hot_updates_in_order 1 8 1 second_begun second_begun-Reaches 0 1 "k" (omega arith)
      (_, refl, refl) _ refl refl refl

all_tasks_end_example : (q : Pipeline) × WorkerRun 1 two_accepted q × IsDrained two_accepted q
all_tasks_end_example = all_tasks_end 1 8 1 two_accepted (omega arith) two_accepted-Reaches

-- The cold write and then the hot update of the first task have ended, and it is not counted off.
abbrev first_writes : Pipeline
first_writes = record first_begun {
  cold_queues = (1 ∷ []) ∷ [];
  cold_workers = ColdWorker.busy_with 0 ∷ [];
}

abbrev first_closed : Pipeline
first_closed =
    let written = end_cold_write 0 0 first_writes in
    end_hot_lane 0 (record written { tasks = modify 0 (to_phase Phase.finished) written.tasks })

first_closed-Reaches : Reaches 1 8 1 first_closed
unfolding try_submit admit link_tails push_cold modify end_hot_lane end_cold_write close_lane
    busy_workers
first_closed-Reaches =
    later
      (later
        (later
          (later
            (later (later two_accepted-Reaches (work (hot_take 0 (1 ∷ []) refl (omega arith))))
              (work (hot_start 0 _ refl refl tt)))
            (work (cold_take 0 0 (1 ∷ []) refl refl)))
          (work (cold_done 0 0 refl)))
        (work (hot_done 0 (_, refl, refl))))
      (work (hot_close 0 _ refl refl refl))

pending_tasks_count_example :
    (first_closed.pending_tasks
      ≡ open_tasks first_closed.tasks
        + (first_closed.hot_counting_off + cold_counting_off first_closed.cold_workers))
    × (first_closed.pending_tasks ≤ 8)
    × ((n : ℕ) (t : Task)
        → get_elem? first_closed.tasks n ≡ some t
        → t.remaining_lanes
          ≡ hot_lane t
            + (queued_in n first_closed.cold_queues + written_in n first_closed.cold_workers))
    × ((n : ℕ) (t : Task) → get_elem? first_closed.tasks n ≡ some t → HasHotLane t)
pending_tasks_count_example = pending_tasks_count 1 8 1 first_closed first_closed-Reaches

first_closed_count : (first_closed.hot_counting_off ≡ 1) × (open_tasks first_closed.tasks ≡ 1)
unfolding try_submit admit link_tails push_cold modify end_hot_lane end_cold_write close_lane
first_closed_count = (refl, refl)

abbrev batch : TimeseriesBatch ℤ
batch = record {
  points = point_at (pos 1) (pos 10) ∷ point_at (pos 2) (pos 20) ∷ [];
  project_id = "a";
}

abbrev no_writers : Routing
no_writers = record { sequence_writers = []; next_writer_index = 3 }

no_writers-IsRouting : IsRouting 4 no_writers
unfolding lookup
no_writers-IsRouting = record { next_below = omega arith; writers_below = λ key w at. absurd (cc) }

shard_batch-IsSharded_example : IsSharded 4 batch no_writers (shard_batch 4 batch no_writers)
shard_batch-IsSharded_example =
    shard_batch-IsSharded 4 batch no_writers (omega arith) no_writers-IsRouting

submit_batch-IsSubmitted_example :
    IsSubmitted 1 4 8 batch no_writers
      (idle_pipeline 4)
      (submit_batch 4 8 batch no_writers (idle_pipeline 4))
submit_batch-IsSubmitted_example =
    submit_batch-IsSubmitted 1 4 8 batch no_writers (idle_pipeline 4) (omega arith)
      no_writers-IsRouting

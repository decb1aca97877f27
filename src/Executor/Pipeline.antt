-- ===== src/Executor/Pipeline.antt =====
-- src/grpc/ingest_task_executor.cpp: the lanes of accepted tasks, as steps of the state that
-- `queue_mutex_` guards. A task is named by its number in the order of admission.
use time_series_engine.Base.{
  ℕ, zero, suc, ◌+◌, ◌-◌, ◌<◌, ◌==◌, ◌≡◌, leb, Bool, true, false, none, some, List, [], ◌∷◌, ◌++◌,
  String, length, set, get_elem?, if◌then◌else◌, All, replicate,
}
use time_series_engine.Base.Assoc.{Table, lookup, insert, has_id}
use time_series_engine.Operation.{make_operation_result, ok}
use time_series_engine.Types.{OperationCode, OperationResult}
use time_series_engine.Executor.Routing.{lanes_of}

-- Where a task is in the hot lane: in `hot_queue_`, taken by a worker that waits for its
-- predecessors, in `hot_update`, or behind `hot_order_completion.set_value()`.
pub data Phase : Type 0 where
  queued waiting updating finished : Phase

-- A task by its keys, one for each sequence of its batch; its data, functions and results are left out.
pub record Task : Type 0 where
  pub keys : List String
  pub hot_predecessors : List ℕ
  pub phase : Phase
  -- Until the first critical section of `completeTask` at the end of the hot update.
  pub hot_lane_open : Bool
  pub remaining_lanes : ℕ

-- Where a cold worker is: at `queue_condition_.wait`, in `cold_write` for a task, or between the two
-- critical sections of `completeTask`, behind the end of a task's last lane.
pub data ColdWorker : Type 0 where
  idling : ColdWorker
  busy_with : ℕ → ColdWorker
  counting_off : ColdWorker

pub record Pipeline : Type 0 where
  pub tasks : List Task
  pub hot_queue : List ℕ
  pub sequence_hot_tails : Table ℕ
  pub cold_queues : List (List ℕ)
  pub cold_workers : List ColdWorker
  -- The hot workers between the two critical sections of `completeTask`.
  pub hot_counting_off : ℕ
  pub pending_tasks : ℕ
  pub stopping : Bool

-- `unavailable`
unfoldable pub unavailable : ℕ → String → OperationResult
unfolding make_operation_result
unavailable failed_count message =
    make_operation_result OperationCode.unavailable 0 failed_count message

-- The loop that links a task behind the last one of each of its sequences.
unfoldable pub link_tails : ℕ → List String → Table ℕ → List ℕ × Table ℕ
unfolding lookup insert
link_tails task [] tails = ([], tails)
link_tails task (key ∷ keys) tails =
    let (later, linked) = link_tails task keys (insert key task tails) in
    (elim (lookup key tails) [ none ↦ later | some predecessor ↦ predecessor ∷ later ], linked)

-- The loop that enters the task in the cold queues that have work.
unfoldable pub push_cold : ℕ → List Bool → List (List ℕ) → List (List ℕ)
push_cold task [] queues = queues
push_cold task (has_work ∷ works) [] = []
push_cold task (has_work ∷ works) (queue ∷ queues) =
    (if has_work then queue ++ task ∷ [] else queue) ∷ push_cold task works queues

-- What is admitted under the lock.
unfoldable pub admit : List String → List Bool → Pipeline → Pipeline
unfolding link_tails push_cold lanes_of
admit keys has_cold_work p =
    let task = length p.tasks in
    let (predecessors, tails) = link_tails task keys p.sequence_hot_tails in
    record p {
      tasks =
          p.tasks
          ++ record {
            keys = keys;
            hot_predecessors = predecessors;
            phase = Phase.queued;
            hot_lane_open = true;
            remaining_lanes = lanes_of has_cold_work;
          }
            ∷ [];
      hot_queue = p.hot_queue ++ task ∷ [];
      sequence_hot_tails = tails;
      cold_queues = push_cold task has_cold_work p.cold_queues;
      pending_tasks = p.pending_tasks + 1;
    }

-- `trySubmit`, behind the split of the batch.
unfoldable pub try_submit : ℕ → ℕ → List String → List Bool → Pipeline → Pipeline × OperationResult
unfolding unavailable admit
try_submit queue_capacity failed_count keys has_cold_work p =
    if p.stopping
    then (p, unavailable failed_count "ingest executor is shutting down")
    else if leb queue_capacity p.pending_tasks
    then (p, unavailable failed_count "ingest queue is full; retry later")
    else (admit keys has_cold_work p, ok 0 "ingest task admitted")

-- A change of one task.
unfoldable pub modify : ℕ → (Task → Task) → List Task → List Task
modify n change [] = []
modify zero change (t ∷ tasks) = change t ∷ tasks
modify (suc n) change (t ∷ tasks) = t ∷ modify n change tasks

abbrev pub to_phase : Phase → Task → Task
to_phase phase t = record t { phase = phase }

abbrev pub to_open : Bool → Task → Task
to_open opened t = record t { hot_lane_open = opened }

abbrev pub lanes_left : List Task → ℕ → ℕ
lanes_left tasks n = elim (get_elem? tasks n) [ none ↦ 0 | some t ↦ t.remaining_lanes ]

-- `--remaining_lanes` of a `std::size_t`
abbrev pub one_lane_less : Task → Task
one_lane_less t = record t {
  remaining_lanes = if t.remaining_lanes == 0 then 18446744073709551615 else t.remaining_lanes - 1;
}

-- The first critical section of `completeTask`, and whether it has ended the last lane.
unfoldable pub close_lane : ℕ → List Task → List Task × Bool
unfolding modify
close_lane n tasks = let closed = modify n one_lane_less tasks in (closed, lanes_left closed n == 0)

-- The second one. A number of pending tasks that is 0 stays.
unfoldable pub count_off : Pipeline → Pipeline
count_off p = record p { pending_tasks = p.pending_tasks - 1 }

-- Where a cold worker goes behind the first section.
abbrev pub after_write : Bool → ColdWorker
after_write last = if last then ColdWorker.counting_off else ColdWorker.idling

-- The end of the hot lane, behind a hot update, and of a cold write with its lane.
unfoldable pub end_hot_lane : ℕ → Pipeline → Pipeline
unfolding close_lane
end_hot_lane n p =
    let (tasks, last) = close_lane n (modify n (to_open false) p.tasks) in
    record p { tasks = tasks; hot_counting_off = p.hot_counting_off + (if last then 1 else 0) }

unfoldable pub end_cold_write : ℕ → ℕ → Pipeline → Pipeline
unfolding close_lane
end_cold_write w n p =
    let (tasks, last) = close_lane n p.tasks in
    record p { tasks = tasks; cold_workers = set p.cold_workers w (after_write last) }

-- Hot workers that are not at `queue_condition_.wait`.
unfoldable pub busy_workers : List Task → ℕ
busy_workers [] = 0
busy_workers (t ∷ tasks) =
    let busy = busy_workers tasks in
    elim t.phase [
      | Phase.queued ↦ busy
      | Phase.waiting ↦ busy + 1
      | Phase.updating ↦ busy + 1
      | Phase.finished ↦ busy + (if t.hot_lane_open then 1 else 0)
    ]

abbrev pub PhaseIs : Phase → List Task → ℕ → Type 0
PhaseIs phase tasks n = (t : Task) × (get_elem? tasks n ≡ some t) × (t.phase ≡ phase)

-- A step of a worker. A cold worker takes a task, ends its write, or counts a task off; a hot worker
-- takes a task, passes the `wait` for the predecessors, ends its update, also by an exception, closes the
-- hot lane, or counts a task off.
pub data WorkerStep (hot_worker_count : ℕ) (p : Pipeline) : Pipeline → Type 0 where
  hot_take :
      (n : ℕ) (rest : List ℕ)
      → p.hot_queue ≡ n ∷ rest
      → busy_workers p.tasks + p.hot_counting_off < hot_worker_count
      → WorkerStep hot_worker_count p
          (record p { tasks = modify n (to_phase Phase.waiting) p.tasks; hot_queue = rest })
  hot_start :
      (n : ℕ) (t : Task)
      → get_elem? p.tasks n ≡ some t
      → t.phase ≡ Phase.waiting
      → All (PhaseIs Phase.finished p.tasks) t.hot_predecessors
      → WorkerStep hot_worker_count p
          (record p { tasks = modify n (to_phase Phase.updating) p.tasks })
  hot_done :
      (n : ℕ)
      → PhaseIs Phase.updating p.tasks n
      → WorkerStep hot_worker_count p
          (record p { tasks = modify n (to_phase Phase.finished) p.tasks })
  hot_close :
      (n : ℕ) (t : Task)
      → get_elem? p.tasks n ≡ some t
      → t.phase ≡ Phase.finished
      → t.hot_lane_open ≡ true
      → WorkerStep hot_worker_count p (end_hot_lane n p)
  hot_count_off :
      0 < p.hot_counting_off
      → WorkerStep hot_worker_count p
          (count_off (record p { hot_counting_off = p.hot_counting_off - 1 }))
  cold_take :
      (w n : ℕ) (rest : List ℕ)
      → get_elem? p.cold_queues w ≡ some (n ∷ rest)
      → get_elem? p.cold_workers w ≡ some ColdWorker.idling
      → WorkerStep hot_worker_count p (record p {
        cold_queues = set p.cold_queues w rest;
        cold_workers = set p.cold_workers w (ColdWorker.busy_with n);
      })
  cold_done :
      (w n : ℕ)
      → get_elem? p.cold_workers w ≡ some (ColdWorker.busy_with n)
      → WorkerStep hot_worker_count p (end_cold_write w n p)
  cold_count_off :
      (w : ℕ)
      → get_elem? p.cold_workers w ≡ some ColdWorker.counting_off
      → WorkerStep hot_worker_count p
          (count_off (record p { cold_workers = set p.cold_workers w ColdWorker.idling }))

-- The keys of a batch: one for each sequence.
abbrev pub Distinct : List String → Type 0
Distinct [] = Unit
Distinct (key ∷ keys) = (has_id key keys ≡ false) × Distinct keys

-- A step of the executor: of a worker, of a caller, or of the destructor.
pub data PipelineStep (hot_worker_count queue_capacity cold_worker_count : ℕ) (p : Pipeline)
    : Pipeline → Type 0 where
  work :
      {q : Pipeline}
      → WorkerStep hot_worker_count p q
      → PipelineStep hot_worker_count queue_capacity cold_worker_count p q
  submit :
      (failed_count : ℕ) (keys : List String) (has_cold_work : List Bool)
      → Distinct keys
      → length has_cold_work ≡ cold_worker_count
      → PipelineStep hot_worker_count queue_capacity cold_worker_count p
          (try_submit queue_capacity failed_count keys has_cold_work p).0
  stop :
      PipelineStep hot_worker_count queue_capacity cold_worker_count p
        (record p { stopping = true })

abbrev pub idle_pipeline : ℕ → Pipeline
idle_pipeline cold_worker_count = record {
  tasks = [];
  hot_queue = [];
  sequence_hot_tails = [];
  cold_queues = replicate cold_worker_count [];
  cold_workers = replicate cold_worker_count ColdWorker.idling;
  hot_counting_off = 0;
  pending_tasks = 0;
  stopping = false;
}

pub data Reaches (hot_worker_count queue_capacity cold_worker_count : ℕ) : Pipeline → Type 0 where
  start :
      Reaches hot_worker_count queue_capacity cold_worker_count (idle_pipeline cold_worker_count)
  later :
      {p q : Pipeline}
      → Reaches hot_worker_count queue_capacity cold_worker_count p
      → PipelineStep hot_worker_count queue_capacity cold_worker_count p q
      → Reaches hot_worker_count queue_capacity cold_worker_count q

-- ===== src/Executor/Counted.antt =====
-- The count of open tasks in the reachable states of the executor of
-- src/grpc/ingest_task_executor.cpp.
use time_series_engine.Base.{
  ℕ, zero, suc, false, ◌+◌, ◌≤◌, ◌≡◌, refl, sym, ap, subst, ◌∙◌, inl, inr, some, List, [], set,
  length, get_elem?, arith, replicate,
}
use time_series_engine.Executor.Pipeline.{
  Phase, Task, Pipeline, admit, ColdWorker, close_lane, end_hot_lane, end_cold_write, count_off,
  WorkerStep, PipelineStep, Reaches, start, later, idle_pipeline, hot_take, hot_start, hot_done,
  hot_close, hot_count_off, cold_take, cold_done, cold_count_off, work, submit, stop,
}
use time_series_engine.Executor.Queue.{is_queued, IsQueue}
use time_series_engine.Executor.Reachable.{
  IsReachable, admitted-IsReachable, idle-IsReachable, worked-IsReachable, is_queued-front,
  try_submit_cases,
}
use time_series_engine.Executor.BatchKeys.{length-set, length-replicate}
use time_series_engine.Executor.Places.{
  cold_counting_off, written_in-take, written_in-count_off, queued_in, written_in, one_if, hot_lane,
  HasHotLane, open_tasks, length-push_cold,
}
use time_series_engine.Executor.Lanes.{IsCounted, ended-IsCounted}
use time_series_engine.Executor.LaneSteps.{
  phase-IsCounted, still_open, front_there, moved-IsCounted, written-IsCounted, admitted-IsCounted,
  off-IsCounted,
}

-- The workers between the two critical sections of `completeTask`.
abbrev pub counting_off : Pipeline → ℕ
counting_off p = p.hot_counting_off + cold_counting_off p.cold_workers

abbrev pub IsAccounted : ℕ → Pipeline → Type 0
IsAccounted cold_worker_count p =
    IsReachable p
    × IsCounted p.tasks p.cold_queues p.cold_workers p.pending_tasks (counting_off p)
    × (length p.cold_queues ≡ cold_worker_count)
    × (length p.cold_workers ≡ cold_worker_count)

recounted :
    (counting counting' : ℕ) (queues : List (List ℕ)) (workers : List ColdWorker) (pending : ℕ)
    (tasks : List Task)
    → counting ≡ counting'
    → IsCounted tasks queues workers pending counting
    → IsCounted tasks queues workers pending counting'
recounted counting counting' queues workers pending tasks same c =
    subst (IsCounted tasks queues workers pending) same c

pub worked-IsAccounted :
    (workers cold_worker_count : ℕ) (p q : Pipeline)
    → WorkerStep workers p q
    → IsAccounted cold_worker_count p
    → IsAccounted cold_worker_count q
unfolding end_hot_lane end_cold_write close_lane count_off
worked-IsAccounted workers cold_worker_count p q (hot_take n rest queue free)
      (g, c, size, writers) =
    let fifo = subst (IsQueue p.tasks) queue g.fifo in
    let (t, at) = front_there n rest p.tasks fifo in
    (
      worked-IsReachable workers p q (hot_take n rest queue free) g,
      phase-IsCounted n t Phase.waiting p.tasks p.cold_queues p.cold_workers p.pending_tasks
          (counting_off p) at
          (inr (
            still_open t (c.hot_lanes n t at)
              (λ e. absurd (cc (is_queued-front n rest p.tasks fifo t at, ap is_queued e)))))
          c,
      size,
      writers,
    )
worked-IsAccounted workers cold_worker_count p q (hot_start n t at waits done)
      (g, c, size, writers) =
    (
      worked-IsReachable workers p q (hot_start n t at waits done) g,
      phase-IsCounted n t Phase.updating p.tasks p.cold_queues p.cold_workers p.pending_tasks
          (counting_off p) at
          (inr (still_open t (c.hot_lanes n t at) (λ e. absurd (cc (waits, e))))) c,
      size,
      writers,
    )
worked-IsAccounted workers cold_worker_count p q (hot_done n (t, at, updates))
      (g, c, size, writers) =
    (
      worked-IsReachable workers p q (hot_done n (t, at, updates)) g,
      phase-IsCounted n t Phase.finished p.tasks p.cold_queues p.cold_workers p.pending_tasks
          (counting_off p) at (inl refl) c,
      size,
      writers,
    )
worked-IsAccounted workers cold_worker_count p q (hot_close n t at ended opened)
      (g, c, size, writers) =
    (
      worked-IsReachable workers p q (hot_close n t at ended opened) g,
      recounted _ _ p.cold_queues p.cold_workers p.pending_tasks _ (omega arith) (
          ended-IsCounted n t false p.tasks p.cold_queues p.cold_workers p.cold_workers
            p.pending_tasks (counting_off p) at (λ m other. refl) (inl ended)
            (omega (arith, ap one_if opened)) c),
      size,
      writers,
    )
worked-IsAccounted workers cold_worker_count p q (hot_count_off some_left) (g, c, size, writers) = (
  g,
  off-IsCounted p.tasks p.cold_queues p.cold_workers p.cold_workers p.pending_tasks _ (λ m. refl)
      (recounted _ _ p.cold_queues p.cold_workers p.pending_tasks _ (omega arith) c),
  size,
  writers,
)
worked-IsAccounted workers cold_worker_count p q (cold_take w n rest queue idle)
      (g, c, size, writers) =
    let after = set p.cold_workers w (ColdWorker.busy_with n) in
    let (_, same) = written_in-take 0 n w p.cold_workers idle in
    (
      g,
      recounted _ _ (set p.cold_queues w rest) after p.pending_tasks _ (omega (arith, same)) (
          moved-IsCounted w n rest p.tasks p.cold_queues p.cold_workers p.pending_tasks
            (counting_off p) queue idle c),
      length-set p.cold_queues w rest ∙ size,
      length-set p.cold_workers w (ColdWorker.busy_with n) ∙ writers,
    )
worked-IsAccounted workers cold_worker_count p q (cold_done w n at_work) (g, c, size, writers) = (
  worked-IsReachable workers p q (cold_done w n at_work) g,
  written-IsCounted w n p at_work c,
  size,
  length-set p.cold_workers w _ ∙ writers,
)
worked-IsAccounted workers cold_worker_count p q (cold_count_off w at_end) (g, c, size, writers) =
    let after = set p.cold_workers w ColdWorker.idling in
    let (_, less) = written_in-count_off 0 w p.cold_workers at_end in
    (
      g,
      off-IsCounted p.tasks p.cold_queues p.cold_workers after p.pending_tasks _
          (λ m. (written_in-count_off m w p.cold_workers at_end).0)
          (recounted _ _ p.cold_queues p.cold_workers p.pending_tasks _ (omega (arith, less)) c),
      size,
      length-set p.cold_workers w ColdWorker.idling ∙ writers,
    )

step-IsAccounted :
    (workers queue_capacity cold_worker_count : ℕ) (p q : Pipeline)
    → PipelineStep workers queue_capacity cold_worker_count p q
    → IsAccounted cold_worker_count p
    → IsAccounted cold_worker_count q
unfolding admit
step-IsAccounted workers queue_capacity cold_worker_count p q (work s) g =
    worked-IsAccounted workers cold_worker_count p q s g
step-IsAccounted workers queue_capacity cold_worker_count p q
      (submit failed_count keys has_cold_work distinct fits) (g, c, size, writers) =
    try_submit_cases queue_capacity failed_count keys has_cold_work p
      (IsAccounted cold_worker_count) (g, c, size, writers)
      (λ room. (
        admitted-IsReachable keys has_cold_work p distinct g,
        admitted-IsCounted _ has_cold_work p.tasks p.cold_queues p.cold_workers p.pending_tasks
            (counting_off p) refl refl (fits ∙ sym size) c,
        length-push_cold (length p.tasks) has_cold_work p.cold_queues (fits ∙ sym size) ∙ size,
        writers,
      ))
step-IsAccounted workers queue_capacity cold_worker_count p q stop g = g

written_in-replicate :
    (n size : ℕ)
    → (written_in n (replicate size ColdWorker.idling) ≡ 0)
      × (cold_counting_off (replicate size ColdWorker.idling) ≡ 0)
written_in-replicate n zero = (refl, refl)
written_in-replicate n (suc size) = written_in-replicate n size

queued_in-replicate : (n size : ℕ) → queued_in n (replicate size []) ≡ 0
queued_in-replicate n zero = refl
queued_in-replicate n (suc size) = omega (arith, queued_in-replicate n size)

idle-IsAccounted :
    (cold_worker_count : ℕ) → IsAccounted cold_worker_count (idle_pipeline cold_worker_count)
idle-IsAccounted cold_worker_count = (
  idle-IsReachable cold_worker_count,
  record {
    lanes = λ n t at. absurd (cc);
    hot_lanes = λ n t at. absurd (cc);
    known = λ n out. omega (
      arith,
      queued_in-replicate n cold_worker_count,
      (written_in-replicate n cold_worker_count).0,
    );
    counted = omega (arith, (written_in-replicate 0 cold_worker_count).1);
  },
  length-replicate cold_worker_count [],
  length-replicate cold_worker_count ColdWorker.idling,
)

pub Reaches-IsAccounted :
    (workers queue_capacity cold_worker_count : ℕ) (p : Pipeline)
    → Reaches workers queue_capacity cold_worker_count p
    → IsAccounted cold_worker_count p
Reaches-IsAccounted workers queue_capacity cold_worker_count p start =
    idle-IsAccounted cold_worker_count
Reaches-IsAccounted workers queue_capacity cold_worker_count q (later {p} r s) =
    step-IsAccounted workers queue_capacity cold_worker_count p q s
      (Reaches-IsAccounted workers queue_capacity cold_worker_count p r)

worked_le :
    (workers : ℕ) (p q : Pipeline) → WorkerStep workers p q → q.pending_tasks ≤ p.pending_tasks
unfolding end_hot_lane end_cold_write count_off
worked_le workers p q (hot_take n rest queue free) = omega arith
worked_le workers p q (hot_start n t at waits done) = omega arith
worked_le workers p q (hot_done n at) = omega arith
worked_le workers p q (hot_close n t at ended opened) = omega arith
worked_le workers p q (hot_count_off some_left) = omega arith
worked_le workers p q (cold_take w n rest queue idle) = omega arith
worked_le workers p q (cold_done w n at_work) = omega arith
worked_le workers p q (cold_count_off w at_end) = omega arith

pending_le :
    (workers queue_capacity cold_worker_count : ℕ) (p : Pipeline)
    → Reaches workers queue_capacity cold_worker_count p
    → p.pending_tasks ≤ queue_capacity
unfolding admit
pending_le workers queue_capacity cold_worker_count p start = omega arith
pending_le workers queue_capacity cold_worker_count q (later {p} r (work s)) =
    omega (arith, worked_le workers p q s, pending_le workers queue_capacity cold_worker_count p r)
pending_le workers queue_capacity cold_worker_count q
      (later {p} r (submit failed_count keys has_cold_work distinct fits)) =
    try_submit_cases queue_capacity failed_count keys has_cold_work p
      (λ o. o.pending_tasks ≤ queue_capacity)
      (pending_le workers queue_capacity cold_worker_count p r) (λ room. omega arith)
pending_le workers queue_capacity cold_worker_count q (later {p} r stop) =
    pending_le workers queue_capacity cold_worker_count p r

-- In every state that the executor reaches, the pending tasks are no more than the capacity, and they
-- are the tasks with an open lane and one for each worker that has ended the last lane of a task and
-- not yet counted it off; each task counts as its open lanes the hot one, until that is closed, and
-- each place that it has in a cold queue or under the write of a cold worker; and no hot lane is
-- closed before the hot update has ended.
pub pending_tasks_count :
    (workers queue_capacity cold_worker_count : ℕ) (p : Pipeline)
    → Reaches workers queue_capacity cold_worker_count p
    → (p.pending_tasks
        ≡ open_tasks p.tasks + (p.hot_counting_off + cold_counting_off p.cold_workers))
      × (p.pending_tasks ≤ queue_capacity)
      × ((n : ℕ) (t : Task)
          → get_elem? p.tasks n ≡ some t
          → t.remaining_lanes
            ≡ hot_lane t + (queued_in n p.cold_queues + written_in n p.cold_workers))
      × ((n : ℕ) (t : Task) → get_elem? p.tasks n ≡ some t → HasHotLane t)
pending_tasks_count workers queue_capacity cold_worker_count p r =
    let accounted = Reaches-IsAccounted workers queue_capacity cold_worker_count p r in
    (
      accounted.1.counted,
      pending_le workers queue_capacity cold_worker_count p r,
      accounted.1.lanes,
      accounted.1.hot_lanes,
    )

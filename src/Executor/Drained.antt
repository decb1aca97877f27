-- ===== src/Executor/Drained.antt =====
-- Runs of the workers of src/grpc/ingest_task_executor.cpp up to the end of all tasks.
use time_series_engine.Base.{
  ℕ, zero, suc, ◌+◌, ◌*◌, ◌<◌, ◌==◌, Bool, true, false, ◌≡◌, refl, sym, ap, subst, ◌∙◌, ◌⊎◌, inl,
  inr, some, List, [], ◌∷◌, length, set, get_elem?, All, arith,
}
use time_series_engine.Executor.Pipeline.{
  Task, Pipeline, modify, one_lane_less, lanes_left, ColdWorker, after_write, close_lane,
  end_cold_write, count_off, Reaches, cold_take, cold_done, cold_count_off,
}
use time_series_engine.Executor.Queue.{length-modify}
use time_series_engine.Executor.Places.{
  cold_counting_off, one_if, open_tasks, queued_in, written_in,
}
use time_series_engine.Executor.Counted.{IsAccounted, worked-IsAccounted, Reaches-IsAccounted}
use time_series_engine.Executor.HotWork.{IsEnded}
use time_series_engine.Executor.Progress.{WorkerRun, rest, go, end_hot_lanes, hot_left}

-- The steps that a cold worker, and all of them, have before them.
abbrev pub worker_steps : ColdWorker → ℕ
worker_steps ColdWorker.idling = 0
worker_steps (ColdWorker.busy_with n) = 2
worker_steps ColdWorker.counting_off = 1

abbrev pub cold_work : List (List ℕ) → List ColdWorker → ℕ
cold_work [] [] = 0
cold_work [] (worker ∷ workers) = worker_steps worker + cold_work [] workers
cold_work (queue ∷ queues) [] = 3 * length queue + cold_work queues []
cold_work (queue ∷ queues) (worker ∷ workers) =
    worker_steps worker + (3 * length queue + cold_work queues workers)

-- A step that a cold worker can make.
data ColdStep (queues : List (List ℕ)) (workers : List ColdWorker) : Type 0 where
  take_next :
      (w n : ℕ) (behind : List ℕ)
      → get_elem? queues w ≡ some (n ∷ behind)
      → get_elem? workers w ≡ some ColdWorker.idling
      → cold_work (set queues w behind) (set workers w (ColdWorker.busy_with n))
        < cold_work queues workers
      → ColdStep queues workers
  end_write :
      (w n : ℕ)
      → get_elem? workers w ≡ some (ColdWorker.busy_with n)
      → ((last : Bool)
          → cold_work queues (set workers w (after_write last)) < cold_work queues workers)
      → ColdStep queues workers
  end_count :
      (w : ℕ)
      → get_elem? workers w ≡ some ColdWorker.counting_off
      → cold_work queues (set workers w ColdWorker.idling) < cold_work queues workers
      → ColdStep queues workers

behind_cold :
    (queue : List ℕ) (worker : ColdWorker) (queues : List (List ℕ)) (workers : List ColdWorker)
    → ColdStep queues workers
    → ColdStep (queue ∷ queues) (worker ∷ workers)
behind_cold queue worker queues workers (take_next w n behind at idle less) =
    take_next (suc w) n behind at idle (omega arith)
behind_cold queue worker queues workers (end_write w n at less) =
    end_write (suc w) n at (λ last. omega (arith, less last))
behind_cold queue worker queues workers (end_count w at less) = end_count (suc w) at (omega arith)

after_write_steps : (last : Bool) → worker_steps (after_write last) < 2
after_write_steps true = omega arith
after_write_steps false = omega arith

-- Every cold worker is idle and every cold queue is empty.
abbrev pub ColdIdle : List (List ℕ) → List ColdWorker → Type 0
ColdIdle queues workers =
    ((n : ℕ) → queued_in n queues + written_in n workers ≡ 0) × (cold_counting_off workers ≡ 0)

cold_step :
    (queues : List (List ℕ)) (workers : List ColdWorker)
    → length queues ≡ length workers
    → ColdIdle queues workers ⊎ ColdStep queues workers
cold_step [] [] same = inl (λ n. omega arith, refl)
cold_step [] (worker ∷ workers) same = absurd (omega arith)
cold_step (queue ∷ queues) [] same = absurd (omega arith)
cold_step (queue ∷ queues) (ColdWorker.busy_with n ∷ workers) same =
    inr (end_write 0 n refl (λ last. omega (arith, after_write_steps last)))
cold_step (queue ∷ queues) (ColdWorker.counting_off ∷ workers) same =
    inr (end_count 0 refl (omega arith))
cold_step ((n ∷ queue) ∷ queues) (ColdWorker.idling ∷ workers) same =
    inr (take_next 0 n queue refl refl (omega arith))
cold_step ([] ∷ queues) (ColdWorker.idling ∷ workers) same =
    elim (cold_step queues workers (omega arith)) [
      | inl (idle, counted) ↦ inl (λ n. omega (arith, idle n), counted)
      | inr step ↦ inr (behind_cold [] ColdWorker.idling queues workers step)
    ]

run-IsAccounted :
    (workers cold_worker_count : ℕ) (p q : Pipeline)
    → WorkerRun workers p q
    → IsAccounted cold_worker_count p
    → IsAccounted cold_worker_count q
run-IsAccounted workers cold_worker_count p q rest g = g
run-IsAccounted workers cold_worker_count p r (go {q = q} s run) g =
    run-IsAccounted workers cold_worker_count q r run
      (worked-IsAccounted workers cold_worker_count p q s g)

run_then :
    (workers : ℕ) (p q r : Pipeline)
    → WorkerRun workers p q
    → WorkerRun workers q r
    → WorkerRun workers p r
run_then workers p q r rest on = on
run_then workers p q r (go {q = m} s run) on = go s (run_then workers m q r run on)

abbrev pub AllEnded : List Task → Type 0
AllEnded tasks = All IsEnded tasks

AllEnded-one_lane_less :
    (n : ℕ) (tasks : List Task) → AllEnded tasks → AllEnded (modify n one_lane_less tasks)
unfolding modify
AllEnded-one_lane_less n [] all = tt
AllEnded-one_lane_less zero (t ∷ tasks) all = all
AllEnded-one_lane_less (suc n) (t ∷ tasks) all = (all.0, AllEnded-one_lane_less n tasks all.1)

all_at :
    (tasks : List Task)
    → AllEnded tasks
    → (n : ℕ) (t : Task) → get_elem? tasks n ≡ some t
    → IsEnded t
all_at [] all n t at = absurd (cc)
all_at (u ∷ tasks) all zero t at = let same : u ≡ t = cc in subst IsEnded same all.0
all_at (u ∷ tasks) all (suc n) t at = all_at tasks all.1 n t at

open_tasks-zero :
    (tasks : List Task)
    → ((n : ℕ) (t : Task) → get_elem? tasks n ≡ some t → t.remaining_lanes ≡ 0)
    → open_tasks tasks ≡ 0
open_tasks-zero [] none_open = refl
open_tasks-zero (t ∷ tasks) none_open =
    let here = none_open 0 t refl in
    let behind = open_tasks-zero tasks (λ n u at. none_open (suc n) u at) in ground arith

-- The tasks of the first state have ended.
pub record IsDrained (p q : Pipeline) : Type 0 where
  pub same_tasks : length q.tasks ≡ length p.tasks
  pub hot_ended : AllEnded q.tasks
  pub cold_ended : ColdIdle q.cold_queues q.cold_workers
  pub all_counted : q.hot_counting_off ≡ 0
  pub none_pending : q.pending_tasks ≡ 0

IsDrained-same :
    (p m q : Pipeline) → length m.tasks ≡ length p.tasks → IsDrained m q → IsDrained p q
IsDrained-same p m q same d = record {
  same_tasks = d.same_tasks ∙ same;
  hot_ended = d.hot_ended;
  cold_ended = d.cold_ended;
  all_counted = d.all_counted;
  none_pending = d.none_pending;
}

nothing_left :
    (cold_worker_count : ℕ) (p : Pipeline)
    → IsAccounted cold_worker_count p
    → AllEnded p.tasks
    → p.hot_counting_off ≡ 0
    → ColdIdle p.cold_queues p.cold_workers
    → IsDrained p p
nothing_left cold_worker_count p (g, c, queues, writers) all counted idle = record {
  same_tasks = refl;
  hot_ended = all;
  cold_ended = idle;
  all_counted = counted;
  none_pending =
      let none_open = open_tasks-zero p.tasks (λ n t at.
        omega (arith, c.lanes n t at, idle.0 n, ap one_if (all_at p.tasks all n t at).1)) in
      omega (arith, c.counted, idle.1);
}

end_cold_lanes :
    (workers cold_worker_count bound : ℕ) (p : Pipeline)
    → IsAccounted cold_worker_count p
    → AllEnded p.tasks
    → p.hot_counting_off ≡ 0
    → cold_work p.cold_queues p.cold_workers < bound
    → (q : Pipeline) × WorkerRun workers p q × IsDrained p q
unfolding end_cold_write close_lane count_off
end_cold_lanes workers cold_worker_count zero p g all counted fits = absurd (omega arith)
end_cold_lanes workers cold_worker_count (suc bound) p g all counted fits =
    elim (cold_step p.cold_queues p.cold_workers (g.2 ∙ sym g.3)) [
      | inl idle ↦ (p, rest, nothing_left cold_worker_count p g all counted idle)
      | inr (take_next w n behind at idle less) ↦
          let s = cold_take w n behind at idle in
          let (r, run, d) =
            end_cold_lanes workers cold_worker_count bound _
              (worked-IsAccounted workers cold_worker_count p _ s g) all counted (omega arith) in
          (r, go s run, IsDrained-same p _ r refl d)
      | inr (end_write w n at less) ↦
          let s = cold_done w n at in
          let (r, run, d) =
            end_cold_lanes workers cold_worker_count bound _
              (worked-IsAccounted workers cold_worker_count p _ s g)
              (AllEnded-one_lane_less n p.tasks all) counted
              (omega (arith, less (lanes_left (modify n one_lane_less p.tasks) n == 0))) in
          (r, go s run, IsDrained-same p _ r (length-modify n one_lane_less p.tasks) d)
      | inr (end_count w at less) ↦
          let s = cold_count_off w at in
          let (r, run, d) =
            end_cold_lanes workers cold_worker_count bound _
              (worked-IsAccounted workers cold_worker_count p _ s g) all counted (omega arith) in
          (r, go s run, IsDrained-same p _ r refl d)
    ]

-- With a hot worker, the steps of the workers lead from every state that the executor reaches to one
-- in which each of its tasks has ended: no hot update and no hot lane is left, no cold queue or worker
-- has a task, and nothing is pending.
pub all_tasks_end :
    (workers queue_capacity cold_worker_count : ℕ) (p : Pipeline)
    → 0 < workers
    → Reaches workers queue_capacity cold_worker_count p
    → (q : Pipeline) × WorkerRun workers p q × IsDrained p q
all_tasks_end workers queue_capacity cold_worker_count p some_worker r =
    let g = Reaches-IsAccounted workers queue_capacity cold_worker_count p r in
    let (m, first, all, counted, same) =
      end_hot_lanes workers (suc (hot_left p)) p some_worker g.0 (omega arith) in
    let (q, second, d) =
      end_cold_lanes workers cold_worker_count (suc (cold_work m.cold_queues m.cold_workers)) m
        (run-IsAccounted workers cold_worker_count p m first g) all counted (omega arith) in
    (q, run_then workers p m q first second, IsDrained-same p m q same d)

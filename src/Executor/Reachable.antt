-- ===== src/Executor/Reachable.antt =====
-- The reachable states of the executor of src/grpc/ingest_task_executor.cpp.
use time_series_engine.Base.{
  ℕ, suc, ◌<◌, ◌≡◌, refl, sym, ap, subst, ◌∙◌, inl, inr, Bool, true, false, leb, some, List, ◌∷◌,
  String, get_elem?, All, arith, Bool-cases,
}
use time_series_engine.Base.Assoc.{Table, lookup, has_id}
use time_series_engine.Executor.Routing.{lanes_of}
use time_series_engine.Executor.Pipeline.{
  Phase, Task, Pipeline, admit, try_submit, modify, to_phase, one_lane_less, end_hot_lane,
  end_cold_write, count_off, PhaseIs, Distinct, WorkerStep, PipelineStep, Reaches, start, later,
  to_open, idle_pipeline, hot_take, hot_start, hot_done, hot_close, hot_count_off, cold_take,
  cold_done, cold_count_off, work, submit, stop,
}
use time_series_engine.Executor.Ordered.{
  HasKey, has_begun, IsOrdered, order_of_tasks, IsOrdered-Advances, Changes, modify-Advances,
}
use time_series_engine.Executor.Admitted.{more-IsOrdered}
use time_series_engine.Executor.Queue.{
  is_queued, IsQueue, front_of_queue, IsQueue-modify, IsQueue-take, IsQueue-admit,
}

pub record IsPipeline (tasks : List Task) (tails : Table ℕ) (queue : List ℕ) : Type 0 where
  pub ordered : IsOrdered tasks tails
  pub fifo : IsQueue tasks queue

-- A change that leaves alone whether the task is queued.
changed-IsPipeline :
    (n : ℕ) (change : Task → Task) (tasks : List Task) (tails : Table ℕ) (queue : List ℕ)
    → ((t : Task)
        → get_elem? tasks n ≡ some t
        → Changes tasks t (change t) × (is_queued (change t).phase ≡ is_queued t.phase))
    → IsPipeline tasks tails queue
    → IsPipeline (modify n change tasks) tails queue
changed-IsPipeline n change tasks tails queue changes g = record {
  ordered =
      IsOrdered-Advances tasks (modify n change tasks) tails
        (modify-Advances n change tasks (λ t at. (changes t at).0)) g.ordered;
  fifo = IsQueue-modify n change tasks queue (λ t at. (changes t at).1) g.fifo;
}

completed-IsPipeline :
    (n : ℕ) (tasks : List Task) (tails : Table ℕ) (queue : List ℕ)
    → IsPipeline tasks tails queue
    → IsPipeline (modify n one_lane_less tasks) tails queue
completed-IsPipeline n tasks tails queue g =
    changed-IsPipeline n one_lane_less tasks tails queue
      (λ t at. ((refl, refl, (λ e. e), (λ e. inl e)), refl)) g

pub is_queued-front :
    (n : ℕ) (rest : List ℕ) (tasks : List Task)
    → IsQueue tasks (n ∷ rest)
    → (t : Task) → get_elem? tasks n ≡ some t
    → is_queued t.phase ≡ true
is_queued-front n rest tasks g t at =
    let (left, all, here, behind) = front_of_queue g.first g.size n rest g.consecutive in
    g.taken n t at ∙ ground arith

taken-IsPipeline :
    (n : ℕ) (rest : List ℕ) (tasks : List Task) (tails : Table ℕ)
    → IsPipeline tasks tails (n ∷ rest)
    → IsPipeline (modify n (to_phase Phase.waiting) tasks) tails rest
taken-IsPipeline n rest tasks tails g = record {
  ordered =
      IsOrdered-Advances tasks (modify n (to_phase Phase.waiting) tasks) tails
        (modify-Advances n (to_phase Phase.waiting) tasks (λ t at. (
          refl,
          refl,
          (λ e. absurd (cc (is_queued-front n rest tasks g.fifo t at, ap is_queued e))),
          (λ e. absurd (cc)),
        )))
        g.ordered;
  fifo = IsQueue-take n rest tasks g.fifo;
}

started-IsPipeline :
    (n : ℕ) (t : Task) (tasks : List Task) (tails : Table ℕ) (queue : List ℕ)
    → get_elem? tasks n ≡ some t
    → t.phase ≡ Phase.waiting
    → All (PhaseIs Phase.finished tasks) t.hot_predecessors
    → IsPipeline tasks tails queue
    → IsPipeline (modify n (to_phase Phase.updating) tasks) tails queue
started-IsPipeline n t tasks tails queue at waits done g =
    changed-IsPipeline n (to_phase Phase.updating) tasks tails queue
      (λ u at'.
        let same : t ≡ u = cc (at, at') in
        subst (λ v. Changes tasks v (to_phase Phase.updating v) × (false ≡ is_queued v.phase)) same
          ((refl, refl, (λ e. absurd (cc)), (λ e. inr done)), sym (ap is_queued waits)))
      g

ended-IsPipeline :
    (n : ℕ) (tasks : List Task) (tails : Table ℕ) (queue : List ℕ)
    → PhaseIs Phase.updating tasks n
    → IsPipeline tasks tails queue
    → IsPipeline (modify n (to_phase Phase.finished) tasks) tails queue
ended-IsPipeline n tasks tails queue (t, at, updates) g =
    changed-IsPipeline n (to_phase Phase.finished) tasks tails queue
      (λ u at'.
        let same : t ≡ u = cc (at, at') in
        subst (λ v. Changes tasks v (to_phase Phase.finished v) × (false ≡ is_queued v.phase)) same
          (
            (refl, refl, (λ e. refl), (λ e. inl (ap has_begun updates))),
            sym (ap is_queued updates),
          ))
      g

abbrev pub IsReachable : Pipeline → Type 0
IsReachable p = IsPipeline p.tasks p.sequence_hot_tails p.hot_queue

pub worked-IsReachable :
    (workers : ℕ) (p q : Pipeline) → WorkerStep workers p q → IsReachable p → IsReachable q
unfolding end_hot_lane end_cold_write count_off
worked-IsReachable workers p q (hot_take n rest queue free) g =
    taken-IsPipeline n rest p.tasks p.sequence_hot_tails
      (subst (IsPipeline p.tasks p.sequence_hot_tails) queue g)
worked-IsReachable workers p q (hot_start n t at waits done) g =
    started-IsPipeline n t p.tasks p.sequence_hot_tails p.hot_queue at waits done g
worked-IsReachable workers p q (hot_done n at) g =
    ended-IsPipeline n p.tasks p.sequence_hot_tails p.hot_queue at g
worked-IsReachable workers p q (hot_close n t at ended opened) g =
    completed-IsPipeline n (modify n (to_open false) p.tasks) p.sequence_hot_tails p.hot_queue (
      changed-IsPipeline n (to_open false) p.tasks p.sequence_hot_tails p.hot_queue
        (λ u there. ((refl, refl, (λ e. e), (λ e. inl e)), refl)) g)
worked-IsReachable workers p q (hot_count_off some_left) g = g
worked-IsReachable workers p q (cold_count_off w at) g = g
worked-IsReachable workers p q (cold_take w n rest queue idle) g = g
worked-IsReachable workers p q (cold_done w n writing) g =
    completed-IsPipeline n p.tasks p.sequence_hot_tails p.hot_queue g

-- What a rejected task leaves alone and an admitted one brings about.
pub try_submit_cases :
    (queue_capacity failed_count : ℕ) (keys : List String) (has_cold_work : List Bool)
    (p : Pipeline) (Holds : Pipeline → Type 0)
    → Holds p
    → (p.pending_tasks < queue_capacity → Holds (admit keys has_cold_work p))
    → Holds (try_submit queue_capacity failed_count keys has_cold_work p).0
unfolding try_submit
try_submit_cases queue_capacity failed_count keys has_cold_work p Holds kept admitted =
    elim (Bool-cases p.stopping) [
      | inl stopped ↦ subst Holds (ground arith) kept
      | inr opened ↦ elim (Bool-cases (leb queue_capacity p.pending_tasks)) [
        | inl full ↦ subst Holds (ground arith) kept
        | inr room ↦ subst Holds (ground arith) (admitted (ground arith))
      ]
    ]

pub admitted-IsReachable :
    (keys : List String) (has_cold_work : List Bool) (p : Pipeline)
    → Distinct keys
    → IsReachable p
    → IsReachable (admit keys has_cold_work p)
unfolding admit
admitted-IsReachable keys has_cold_work p distinct g = record {
  ordered =
      more-IsOrdered p.tasks p.sequence_hot_tails keys (lanes_of has_cold_work) distinct g.ordered;
  fifo = IsQueue-admit p.tasks p.hot_queue _ refl g.fifo;
}

submitted-IsReachable :
    (queue_capacity failed_count : ℕ) (keys : List String) (has_cold_work : List Bool)
    (p : Pipeline)
    → Distinct keys
    → IsReachable p
    → IsReachable (try_submit queue_capacity failed_count keys has_cold_work p).0
submitted-IsReachable queue_capacity failed_count keys has_cold_work p distinct g =
    try_submit_cases queue_capacity failed_count keys has_cold_work p IsReachable g
      (λ room. admitted-IsReachable keys has_cold_work p distinct g)

step-IsReachable :
    (workers queue_capacity cold_worker_count : ℕ) (p q : Pipeline)
    → PipelineStep workers queue_capacity cold_worker_count p q
    → IsReachable p
    → IsReachable q
step-IsReachable workers queue_capacity cold_worker_count p q (work s) g =
    worked-IsReachable workers p q s g
step-IsReachable workers queue_capacity cold_worker_count p q
      (submit failed_count keys has_cold_work distinct fits) g =
    submitted-IsReachable queue_capacity failed_count keys has_cold_work p distinct g
step-IsReachable workers queue_capacity cold_worker_count p q stop g = g

pub idle-IsReachable : (cold_worker_count : ℕ) → IsReachable (idle_pipeline cold_worker_count)
unfolding lookup
idle-IsReachable cold_worker_count = record {
  ordered = record {
    tails_last = λ key n e. absurd (cc);
    tails_found = λ n key (t, at, _). absurd (cc);
    earlier = λ n t at. absurd (cc);
    chained = λ n t at m key lt has h. absurd (cc);
    waited = λ n t at begun. absurd (cc);
  };
  fifo = record {
    first = 0;
    size = 0;
    consecutive = refl;
    newest_last = refl;
    taken = λ n t at. absurd (cc);
  };
}

pub Reaches-IsReachable :
    (workers queue_capacity cold_worker_count : ℕ) (p : Pipeline)
    → Reaches workers queue_capacity cold_worker_count p
    → IsReachable p
Reaches-IsReachable workers queue_capacity cold_worker_count p start =
    idle-IsReachable cold_worker_count
Reaches-IsReachable workers queue_capacity cold_worker_count q (later {p} r s) =
    step-IsReachable workers queue_capacity cold_worker_count p q s
      (Reaches-IsReachable workers queue_capacity cold_worker_count p r)

-- In every state that the executor reaches, a task whose hot update has begun has behind it the hot
-- update of every earlier task that shares a sequence with it.
pub hot_updates_in_order :
    (workers queue_capacity cold_worker_count : ℕ) (p : Pipeline)
    → Reaches workers queue_capacity cold_worker_count p
    → (m n : ℕ) (key : String) → m < n
    → HasKey p.tasks m key
    → (t : Task) → get_elem? p.tasks n ≡ some t
    → has_id key t.keys ≡ true
    → has_begun t.phase ≡ true
    → PhaseIs Phase.finished p.tasks m
hot_updates_in_order workers queue_capacity cold_worker_count p r m n key before there t at has
      begun =
    order_of_tasks p.tasks p.sequence_hot_tails
      (Reaches-IsReachable workers queue_capacity cold_worker_count p r).ordered (suc n) n m key t
      (omega arith) before at has there begun

-- ===== src/Executor/Progress.antt =====
-- The steps of the hot workers of src/grpc/ingest_task_executor.cpp.
use time_series_engine.Base.{
  ℕ, zero, suc, ◌+◌, ◌<◌, ◌==◌, Bool, true, false, ◌≡◌, refl, sym, ap, ◌∙◌, ◌⊎◌, inl, inr, leb,
  List, [], ◌∷◌, length, All, arith, get_elem?-lt, get_elem?-below,
}
use native.Mathlib.Decide.{dec_lt}
use time_series_engine.Executor.Pipeline.{
  Phase, Task, Pipeline, modify, to_phase, to_open, one_lane_less, lanes_left, close_lane,
  end_hot_lane, count_off, hot_count_off, busy_workers, PhaseIs, WorkerStep, hot_take, hot_start,
  hot_done, hot_close,
}
use time_series_engine.Executor.Queue.{is_queued, length-modify}
use time_series_engine.Executor.Reachable.{IsReachable, worked-IsReachable}
use time_series_engine.Executor.HotWork.{
  hot_work, IsEnded, IsLeast, hot_work-modify, hot_work-one_lane_less, busy_workers-zero,
  is_queued-true, steps_of, finished_le, next_task, one_if_le, queue_front,
}

abbrev pub hot_left : Pipeline → ℕ
hot_left p = hot_work p.tasks + p.hot_counting_off

-- A step of a hot worker, which lessens the work.
abbrev pub HotStep : ℕ → Pipeline → Type 0
HotStep workers p =
    (q : Pipeline) × WorkerStep workers p q
    × (hot_left q < hot_left p)
    × (length q.tasks ≡ length p.tasks)

module _ (workers : ℕ) (p : Pipeline) (some_worker : 0 < workers) (g : IsReachable p) (n : ℕ)
    (t : Task) (least : IsLeast p.tasks n t) (all_counted : p.hot_counting_off ≡ 0) where
  -- A queued task behind which all is finished is at the front.
  front_first : t.phase ≡ Phase.queued → n ≡ g.fifo.first
  front_first waits =
      let late : leb g.fifo.first n ≡ true = sym (g.fifo.taken n t least.0) ∙ ap is_queued waits in
      elim (dec_lt g.fifo.first n) [
        | yes lt ↦
            let (u, at) =
              get_elem?-below p.tasks g.fifo.first
                (omega (arith, get_elem?-lt p.tasks n least.0)) in
            let queues = g.fifo.taken g.fifo.first u at in
            let ended = least.2 g.fifo.first u lt at in
            absurd (ground (arith, ap is_queued ended.0))
        | no other ↦ ground arith
      ]

  none_busy : t.phase ≡ Phase.queued → busy_workers p.tasks ≡ 0
  none_busy waits = busy_workers-zero p.tasks (λ m u at. elim (dec_lt m n) [
    | yes before ↦ inl (least.2 m u before at)
    | no after ↦
        let same = front_first waits in
        inr (is_queued-true u.phase (g.fifo.taken m u at ∙ ground arith))
  ])

  front_of : t.phase ≡ Phase.queued → (rest : List ℕ) × (p.hot_queue ≡ n ∷ rest)
  front_of waits =
      let same = front_first waits in
      let fits = get_elem?-lt p.tasks n least.0 in
      queue_front g.fifo.first g.fifo.size n p.hot_queue g.fifo.consecutive same
        (omega (arith, g.fifo.newest_last))

  take_step : t.phase ≡ Phase.queued → HotStep workers p
  take_step waits =
      let (rest, queue) = front_of waits in
      let left = hot_work-modify n (to_phase Phase.waiting) p.tasks t least.0 in
      let cost = steps_of t Phase.queued t.hot_lane_open waits refl in
      (
        _,
        hot_take n rest queue (omega (arith, none_busy waits)),
        omega arith,
        length-modify n (to_phase Phase.waiting) p.tasks,
      )

  finished_predecessors :
      (ns : List ℕ) → All (λ c. c < n) ns → All (PhaseIs Phase.finished p.tasks) ns
  finished_predecessors [] all = tt
  finished_predecessors (c ∷ ns) (lt, all) =
      let (u, at) = get_elem?-below p.tasks c (omega (arith, get_elem?-lt p.tasks n least.0)) in
      ((u, at, (least.2 c u lt at).0), finished_predecessors ns all)

  start_step : t.phase ≡ Phase.waiting → HotStep workers p
  start_step waits =
      let left = hot_work-modify n (to_phase Phase.updating) p.tasks t least.0 in
      let cost = steps_of t Phase.waiting t.hot_lane_open waits refl in
      (
        _,
        hot_start n t least.0 waits
            (finished_predecessors t.hot_predecessors (g.ordered.earlier n t least.0)),
        omega arith,
        length-modify n (to_phase Phase.updating) p.tasks,
      )

  end_step : t.phase ≡ Phase.updating → HotStep workers p
  end_step updates =
      let left = hot_work-modify n (to_phase Phase.finished) p.tasks t least.0 in
      let cost = steps_of t Phase.updating t.hot_lane_open updates refl in
      (
        _,
        hot_done n (t, least.0, updates),
        omega (arith, finished_le t.hot_lane_open),
        length-modify n (to_phase Phase.finished) p.tasks,
      )

  close_step : t.phase ≡ Phase.finished → t.hot_lane_open ≡ true → HotStep workers p
  unfolding end_hot_lane close_lane
  close_step ended opened =
      let left = hot_work-modify n (to_open false) p.tasks t least.0 in
      let cost = steps_of t Phase.finished true ended opened in
      let none = steps_of (to_open false t) Phase.finished false ended refl in
      let closed = modify n (to_open false) p.tasks in
      (
        _,
        hot_close n t least.0 ended opened,
        omega (
          arith,
          hot_work-one_lane_less n closed,
          one_if_le (lanes_left (modify n one_lane_less closed) n == 0),
        ),
        length-modify n one_lane_less closed ∙ length-modify n (to_open false) p.tasks,
      )

  step_of_phase :
      (phase : Phase) (opened : Bool)
      → t.phase ≡ phase
      → t.hot_lane_open ≡ opened
      → HotStep workers p
  step_of_phase Phase.queued opened e f = take_step e
  step_of_phase Phase.waiting opened e f = start_step e
  step_of_phase Phase.updating opened e f = end_step e
  step_of_phase Phase.finished true e f = close_step e f
  step_of_phase Phase.finished false e f =
      absurd (omega (arith, least.1, steps_of t Phase.finished false e f))

hot_step :
    (workers : ℕ) (p : Pipeline)
    → 0 < workers
    → IsReachable p
    → (All IsEnded p.tasks × (p.hot_counting_off ≡ 0)) ⊎ HotStep workers p
unfolding count_off
hot_step workers p some_worker g = elim (dec_lt 0 p.hot_counting_off) [
  | yes some_left ↦ inr (_, hot_count_off some_left, omega arith, refl)
  | no none ↦
      let all_counted : p.hot_counting_off ≡ 0 = omega arith in
      elim (next_task p.tasks) [
        | inl all ↦ inl (all, all_counted)
        | inr (n, t, least) ↦ inr (
            step_of_phase workers p some_worker g n t least all_counted t.phase t.hot_lane_open refl
              refl)
      ]
]

pub data WorkerRun (workers : ℕ) : Pipeline → Pipeline → Type 0 where
  rest : {p : Pipeline} → WorkerRun workers p p
  go : {p q r : Pipeline} → WorkerStep workers p q → WorkerRun workers q r → WorkerRun workers p r

pub end_hot_lanes :
    (workers bound : ℕ) (p : Pipeline)
    → 0 < workers
    → IsReachable p
    → hot_left p < bound
    → (q : Pipeline) × WorkerRun workers p q
      × All IsEnded q.tasks
      × (q.hot_counting_off ≡ 0)
      × (length q.tasks ≡ length p.tasks)
end_hot_lanes workers zero p some_worker g fits = absurd (omega arith)
end_hot_lanes workers (suc bound) p some_worker g fits = elim (hot_step workers p some_worker g) [
  | inl (all, counted) ↦ (p, rest, all, counted, refl)
  | inr (q, step, less, same) ↦
      let (r, run, all, counted, kept) =
        end_hot_lanes workers bound q some_worker (worked-IsReachable workers p q step g)
          (omega arith) in
      (r, go step run, all, counted, kept ∙ same)
]

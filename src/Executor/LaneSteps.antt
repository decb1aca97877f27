-- ===== src/Executor/LaneSteps.antt =====
-- What each step of the executor of src/grpc/ingest_task_executor.cpp does to the lanes of its tasks.
use time_series_engine.Base.{
  ℕ, zero, suc, ◌+◌, ◌-◌, ◌<◌, ◌≤◌, ◌==◌, ◌≡◌, refl, sym, ap, subst, ◌∙◌, ◌⊎◌, inl, inr, Bool, true,
  false, some, List, [], ◌∷◌, ◌++◌, length, length-append, set, get_elem?, arith, Bool-cases,
  get_elem?-below, get_elem?-snoc,
}
use native.Mathlib.Decide.{dec_lt}
use time_series_engine.Executor.Routing.{lanes_of}
use time_series_engine.Executor.Pipeline.{
  Phase, Task, Pipeline, push_cold, modify, to_phase, to_open, one_lane_less, ColdWorker,
  close_lane, end_cold_write, after_write, lanes_left,
}
use time_series_engine.Executor.Queue.{IsQueue, front_of_queue}
use time_series_engine.Executor.Places.{
  cold_counting_off, one_if, queued_in, written_in, hot_lane, HasHotLane, is_open, open_tasks,
  queued_in-pop, written_in-take, written_in-end, queued_in-push_cold,
}
use time_series_engine.Executor.Lanes.{IsCounted, changed-IsCounted, ended-IsCounted}

-- A task whose phase changes keeps its hot lane.
pub phase-IsCounted :
    (n : ℕ) (t : Task) (phase : Phase) (tasks : List Task) (queues : List (List ℕ))
    (writing : List ColdWorker) (pending counting_off : ℕ)
    → get_elem? tasks n ≡ some t
    → (phase ≡ Phase.finished) ⊎ (t.hot_lane_open ≡ true)
    → IsCounted tasks queues writing pending counting_off
    → IsCounted (modify n (to_phase phase) tasks) queues writing pending counting_off
phase-IsCounted n t phase tasks queues writing pending counting_off at hot g =
    changed-IsCounted n t (to_phase phase) tasks queues writing writing pending counting_off
      counting_off at (λ m other. refl) (g.lanes n t at) hot refl g

pub front_there :
    (n : ℕ) (rest : List ℕ) (tasks : List Task)
    → IsQueue tasks (n ∷ rest)
    → (t : Task) × (get_elem? tasks n ≡ some t)
front_there n rest tasks g =
    let (left, all, here, behind) = front_of_queue g.first g.size n rest g.consecutive in
    get_elem?-below tasks n (omega (arith, g.newest_last))

pub modify-same :
    (n : ℕ) (t : Task) (tasks : List Task)
    → get_elem? tasks n ≡ some t
    → modify n (to_open t.hot_lane_open) tasks ≡ tasks
unfolding modify
modify-same n t [] at = refl
modify-same zero t (u ∷ tasks) at =
    let same : u ≡ t = cc in ap (λ (v : Task). to_open v.hot_lane_open u ∷ tasks) (sym same)
modify-same (suc n) t (u ∷ tasks) at = ap (λ l. u ∷ l) (modify-same n t tasks at)

-- A task whose hot update has not ended has an open hot lane.
pub still_open : (t : Task) → HasHotLane t → ¬ (t.phase ≡ Phase.finished) → t.hot_lane_open ≡ true
still_open t (inl ended) not_ended = absurd (not_ended ended)
still_open t (inr opened) not_ended = opened

-- A cold worker takes a task.
pub moved-IsCounted :
    (w n : ℕ) (rest : List ℕ) (tasks : List Task) (queues : List (List ℕ))
    (writing : List ColdWorker) (pending counting_off : ℕ)
    → get_elem? queues w ≡ some (n ∷ rest)
    → get_elem? writing w ≡ some ColdWorker.idling
    → IsCounted tasks queues writing pending counting_off
    → IsCounted tasks
        (set queues w rest)
        (set writing w (ColdWorker.busy_with n))
        pending
        counting_off
moved-IsCounted w n rest tasks queues writing pending counting_off queue idle g =
    let moved : (m : ℕ)
        → queued_in m (set queues w rest) + written_in m (set writing w (ColdWorker.busy_with n))
          ≡ queued_in m queues + written_in m writing =
      λ m.
        omega
          (arith, queued_in-pop m n w rest queues queue, (written_in-take m n w writing idle).0) in
    record {
      lanes = λ m t at. g.lanes m t at ∙ ap (λ k. hot_lane t + k) (sym (moved m));
      hot_lanes = g.hot_lanes;
      known = λ m out. moved m ∙ g.known m out;
      counted = g.counted;
    }

pub inside : (n size : ℕ) → (size ≤ n → n < size) → n < size
inside n size absurd_outside = elim (dec_lt n size) [
  | yes lt ↦ lt
  | no out ↦ absurd_outside (omega arith)
]

-- A cold worker ends its write.
pub written-IsCounted :
    (w n : ℕ) (p : Pipeline)
    → get_elem? p.cold_workers w ≡ some (ColdWorker.busy_with n)
    → IsCounted p.tasks p.cold_queues p.cold_workers p.pending_tasks
        (p.hot_counting_off + cold_counting_off p.cold_workers)
    → let q = end_cold_write w n p in
      IsCounted q.tasks q.cold_queues q.cold_workers q.pending_tasks
        (q.hot_counting_off + cold_counting_off q.cold_workers)
unfolding end_cold_write close_lane
written-IsCounted w n p at_work g =
    let last = lanes_left (modify n one_lane_less p.tasks) n == 0 in
    let after = set p.cold_workers w (after_write last) in
    let (places, counts) = written_in-end n n w last p.cold_workers at_work in
    let this : one_if (n == n) ≡ 1 = ground arith in
    let (t, at) =
      get_elem?-below p.tasks n (inside n _ (λ out. absurd (omega (arith, g.known n out)))) in
    let counted =
      ended-IsCounted n t t.hot_lane_open p.tasks p.cold_queues p.cold_workers after p.pending_tasks
        (p.hot_counting_off + cold_counting_off p.cold_workers) at
        (λ m other. ground (arith, (written_in-end m n w last p.cold_workers at_work).0))
        (g.hot_lanes n t at) (omega arith) g in
    subst (λ k. IsCounted (modify n one_lane_less p.tasks) p.cold_queues after p.pending_tasks k)
      (omega arith)
      (subst
        (λ q. IsCounted (modify n one_lane_less q) p.cold_queues after p.pending_tasks (
          (p.hot_counting_off + cold_counting_off p.cold_workers)
          + one_if (lanes_left (modify n one_lane_less q) n == 0)))
        (modify-same n t p.tasks at) counted)

-- A worker counts a task off.
pub off-IsCounted :
    (tasks : List Task) (queues : List (List ℕ)) (writing writing' : List ColdWorker)
    (pending counting_off : ℕ)
    → ((m : ℕ) → written_in m writing' ≡ written_in m writing)
    → IsCounted tasks queues writing pending (suc counting_off)
    → IsCounted tasks queues writing' (pending - 1) counting_off
off-IsCounted tasks queues writing writing' pending counting_off same g = record {
  lanes = λ m t at. g.lanes m t at ∙ ap (λ k. hot_lane t + (queued_in m queues + k)) (sym (same m));
  hot_lanes = g.hot_lanes;
  known = λ m out. ap (λ k. queued_in m queues + k) (same m) ∙ g.known m out;
  counted = omega (arith, g.counted);
}

pub lanes_of-positive : (works : List Bool) → 0 < lanes_of works
unfolding lanes_of
lanes_of-positive [] = omega arith
lanes_of-positive (true ∷ works) = omega (arith, lanes_of-positive works)
lanes_of-positive (false ∷ works) = lanes_of-positive works

pub open_tasks-snoc :
    (tasks : List Task) (t : Task) → open_tasks (tasks ++ t ∷ []) ≡ open_tasks tasks + is_open t
open_tasks-snoc [] t = omega arith
open_tasks-snoc (u ∷ tasks) t = omega (arith, open_tasks-snoc tasks t)

-- A task is admitted.
pub admitted-IsCounted :
    (t : Task) (works : List Bool) (tasks : List Task) (queues : List (List ℕ))
    (writing : List ColdWorker) (pending counting_off : ℕ)
    → t.hot_lane_open ≡ true
    → t.remaining_lanes ≡ lanes_of works
    → length works ≡ length queues
    → IsCounted tasks queues writing pending counting_off
    → IsCounted
        (tasks ++ t ∷ [])
        (push_cold (length tasks) works queues)
        writing
        (pending + 1)
        counting_off
admitted-IsCounted t works tasks queues writing pending counting_off fresh lanes fits g =
    let pushed = λ (m : ℕ). queued_in-push_cold m (length tasks) works queues fits in
    record {
      lanes = λ m u at. elim (Bool-cases (length tasks == m)) [
        | inl last ↦
            let same : t ≡ u = cc (get_elem?-snoc tasks t m, at, last) in
            let one : length tasks ≡ m = ground arith in
            subst
              (λ v.
                v.remaining_lanes
                ≡ hot_lane v
                  + (queued_in m (push_cold (length tasks) works queues) + written_in m writing))
              same (ground (arith, fresh, lanes, pushed m, g.known m (omega arith)))
        | inr other ↦
            g.lanes m u (ground (arith, get_elem?-snoc tasks t m))
            ∙ ap (λ k. hot_lane u + (k + written_in m writing)) (ground (arith, pushed m))
      ];
      hot_lanes = λ m u at. elim (Bool-cases (length tasks == m)) [
        | inl last ↦ inr (cc (get_elem?-snoc tasks t m, at, last, fresh))
        | inr other ↦ g.hot_lanes m u (ground (arith, get_elem?-snoc tasks t m))
      ];
      known = λ m out.
          let beyond = length-append tasks (t ∷ []) in
          let other : length tasks == m ≡ false = ground arith in
          ground (arith, pushed m, g.known m (omega arith));
      counted = ground (arith, open_tasks-snoc tasks t, lanes_of-positive works, g.counted);
    }

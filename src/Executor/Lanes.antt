-- ===== src/Executor/Lanes.antt =====
-- `remaining_lanes` and `pending_tasks_` of src/grpc/ingest_task_executor.cpp against the queues.
use time_series_engine.Base.{
  ℕ, zero, suc, ◌+◌, ◌≤◌, ◌==◌, ◌≡◌, sym, ap, subst, ◌∙◌, ◌⊎◌, inl, inr, Bool, true, false, some,
  List, [], ◌∷◌, length, get_elem?, if◌then◌else◌, arith, Option-cases, Bool-cases, get_elem?-lt,
}
use time_series_engine.Executor.Pipeline.{
  ColdWorker, close_lane, Phase, Task, modify, to_open, one_lane_less, lanes_left,
}
use time_series_engine.Executor.Ordered.{get_elem?-modify, changed}
use time_series_engine.Executor.Queue.{length-modify}
use time_series_engine.Executor.Places.{
  one_if, queued_in, written_in, hot_lane, HasHotLane, is_open, open_tasks, open_tasks-modify,
  modify-modify,
}

-- Each task counts its open lanes, and the executor the tasks that have one or are to be counted off.
pub record IsCounted (tasks : List Task) (queues : List (List ℕ)) (writing : List ColdWorker)
    (pending counting_off : ℕ) : Type 0 where
  pub lanes :
      (n : ℕ) (t : Task)
      → get_elem? tasks n ≡ some t
      → t.remaining_lanes ≡ hot_lane t + (queued_in n queues + written_in n writing)
  pub hot_lanes : (n : ℕ) (t : Task) → get_elem? tasks n ≡ some t → HasHotLane t
  pub known : (n : ℕ) → length tasks ≤ n → queued_in n queues + written_in n writing ≡ 0
  pub counted : pending ≡ open_tasks tasks + counting_off

unchanged :
    (n m : ℕ) (change : Task → Task) (tasks : List Task) (u : Task)
    → n == m ≡ false
    → get_elem? (modify n change tasks) m ≡ some u
    → get_elem? tasks m ≡ some u
unchanged n m change tasks u other at = elim (Option-cases (get_elem? tasks m)) [
  | inl absent ↦
      absurd (cc (get_elem?-modify n m change tasks, ap (changed (n == m) change) absent))
  | inr (v, there) ↦
      let now = get_elem?-modify n m change tasks ∙ ap (changed (n == m) change) there in
      let same : v ≡ u = ground arith in there ∙ ap some same
]

beside :
    (n m : ℕ) (tasks : List Task) (t : Task)
    → get_elem? tasks n ≡ some t
    → length tasks ≤ m
    → n == m ≡ false
beside n m tasks t at out = let lt = get_elem?-lt tasks n at in ground arith

changed_here :
    (n m : ℕ) (t u : Task) (change : Task → Task) (tasks : List Task)
    → n == m ≡ true
    → get_elem? tasks n ≡ some t
    → get_elem? (modify n change tasks) m ≡ some u
    → change t ≡ u
changed_here n m t u change tasks same at at' =
    let one : n ≡ m = ground arith in
    let there : get_elem? tasks m ≡ some t = ap (get_elem? tasks) (sym one) ∙ at in
    let now = get_elem?-modify n m change tasks ∙ ap (changed (n == m) change) there in ground arith

-- A change of one task and of its lanes.
pub changed-IsCounted :
    (n : ℕ) (t : Task) (change : Task → Task) (tasks : List Task) (queues : List (List ℕ))
    (writing writing' : List ColdWorker) (pending counting_off counting_off' : ℕ)
    → get_elem? tasks n ≡ some t
    → ((m : ℕ) → n == m ≡ false → written_in m writing' ≡ written_in m writing)
    → (change t).remaining_lanes
      ≡ hot_lane (change t) + (queued_in n queues + written_in n writing')
    → HasHotLane (change t)
    → counting_off' + is_open (change t) ≡ counting_off + is_open t
    → IsCounted tasks queues writing pending counting_off
    → IsCounted (modify n change tasks) queues writing' pending counting_off'
changed-IsCounted n t change tasks queues writing writing' pending counting_off counting_off' at
      others here hot count g =
    record {
      lanes = λ m u at'. elim (Bool-cases (n == m)) [
        | inl same ↦
            let one : n ≡ m = ground arith in
            let this = changed_here n m t u change tasks same at at' in
            subst
              (λ v. v.remaining_lanes ≡ hot_lane v + (queued_in m queues + written_in m writing'))
              this
              (subst
                (λ k.
                  (change t).remaining_lanes
                  ≡ hot_lane (change t) + (queued_in k queues + written_in k writing'))
                one here)
        | inr other ↦
            omega (arith, others m other, g.lanes m u (unchanged n m change tasks u other at'))
      ];
      hot_lanes = λ m u at'. elim (Bool-cases (n == m)) [
        | inl same ↦ subst HasHotLane (changed_here n m t u change tasks same at at') hot
        | inr other ↦ g.hot_lanes m u (unchanged n m change tasks u other at')
      ];
      known = λ m out. omega (
        arith,
        g.known m (omega (arith, length-modify n change tasks)),
        others m (beside n m tasks t at (omega (arith, length-modify n change tasks))),
      );
      counted = omega (arith, g.counted, open_tasks-modify n change tasks t at);
    }

-- The end of a lane of an open task.
lane_ended :
    (t : Task) (lanes : ℕ)
    → t.remaining_lanes ≡ suc lanes
    → (one_lane_less t).remaining_lanes ≡ lanes
lane_ended t lanes some_lane = ground arith

lanes_left-modify :
    (n : ℕ) (change : Task → Task) (tasks : List Task) (t : Task)
    → get_elem? tasks n ≡ some t
    → lanes_left (modify n change tasks) n ≡ (change t).remaining_lanes
unfolding modify
lanes_left-modify n change [] t at = absurd (cc)
lanes_left-modify zero change (u ∷ tasks) t at =
    let same : u ≡ t = cc in ap (λ v. (change v).remaining_lanes) same
lanes_left-modify (suc n) change (u ∷ tasks) t at = lanes_left-modify n change tasks t at

closed_lem :
    (left new counting_off : ℕ)
    → left ≡ new
    → counting_off + one_if (left == 0) + one_if (if new == 0 then false else true)
      ≡ counting_off + 1
closed_lem left new counting_off same = ground arith

-- A lane of one task has ended; with the last, the task is to be counted off.
pub ended-IsCounted :
    (n : ℕ) (t : Task) (opened : Bool) (tasks : List Task) (queues : List (List ℕ))
    (writing writing' : List ColdWorker) (pending counting_off : ℕ)
    → get_elem? tasks n ≡ some t
    → ((m : ℕ) → n == m ≡ false → written_in m writing' ≡ written_in m writing)
    → (t.phase ≡ Phase.finished) ⊎ (opened ≡ true)
    → hot_lane t + written_in n writing ≡ suc (one_if opened + written_in n writing')
    → IsCounted tasks queues writing pending counting_off
    → let (after, last) = close_lane n (modify n (to_open opened) tasks) in
      IsCounted after queues writing' pending (counting_off + one_if last)
unfolding close_lane
ended-IsCounted n t opened tasks queues writing writing' pending counting_off at others hot less g =
    let change = λ (v : Task). one_lane_less (to_open opened v) in
    let some_lane : t.remaining_lanes
        ≡ suc (one_if opened + (queued_in n queues + written_in n writing')) =
      omega (arith, g.lanes n t at) in
    let is_opened : is_open t ≡ 1 = ground arith in
    let now : (change t).remaining_lanes
        ≡ one_if opened + (queued_in n queues + written_in n writing') =
      lane_ended (to_open opened t) _ some_lane in
    subst (λ q. IsCounted q queues writing' pending (counting_off + one_if (lanes_left q n == 0)))
      (sym (modify-modify n one_lane_less (to_open opened) tasks))
      (changed-IsCounted n t change tasks queues writing writing' pending counting_off
        (counting_off + one_if (lanes_left (modify n change tasks) n == 0)) at others now hot
        (closed_lem (lanes_left (modify n change tasks) n) (change t).remaining_lanes counting_off
            (lanes_left-modify n change tasks t at)
          ∙ ap (λ k. counting_off + k) (sym is_opened))
        g)

-- ===== src/Executor/Queue.antt =====
-- `hot_queue_` of src/grpc/ingest_task_executor.cpp: the newest tasks in the order of admission.
use time_series_engine.Base.{
  ℕ, zero, suc, ◌+◌, ◌==◌, ◌≡◌, refl, sym, ap, ◌∙◌, inl, inr, Bool, true, false, leb, some, List,
  [], ◌∷◌, ◌++◌, length, length-append, get_elem?, arith, Option-cases, Bool-cases, get_elem?-snoc,
}
use time_series_engine.Executor.Pipeline.{Phase, Task, modify, to_phase}
use time_series_engine.Executor.Ordered.{get_elem?-modify, changed}

abbrev pub is_queued : Phase → Bool
is_queued Phase.queued = true
is_queued _ = false

-- `count` numbers from one on.
abbrev pub from : ℕ → ℕ → List ℕ
from first zero = []
from first (suc count) = first ∷ from (suc first) count

from-snoc : (first count : ℕ) → from first (suc count) ≡ from first count ++ (first + count) ∷ []
from-snoc first zero = let same : first + 0 ≡ first = omega arith in ap (λ n. n ∷ []) (sym same)
from-snoc first (suc count) =
    let same : suc first + count ≡ first + suc count = omega arith in
    ap (λ l. first ∷ l)
      (from-snoc (suc first) count ∙ ap (λ n. from (suc first) count ++ n ∷ []) same)

pub record IsQueue (tasks : List Task) (queue : List ℕ) : Type 0 where
  pub first : ℕ
  pub size : ℕ
  pub consecutive : queue ≡ from first size
  pub newest_last : first + size ≡ length tasks
  pub taken : (n : ℕ) (t : Task) → get_elem? tasks n ≡ some t → is_queued t.phase ≡ (leb first n)

pub length-modify :
    (n : ℕ) (change : Task → Task) (tasks : List Task)
    → length (modify n change tasks) ≡ length tasks
unfolding modify
length-modify n change [] = refl
length-modify zero change (t ∷ tasks) = refl
length-modify (suc n) change (t ∷ tasks) = ap suc (length-modify n change tasks)

-- A change that leaves alone whether the task is queued.
pub IsQueue-modify :
    (n : ℕ) (change : Task → Task) (tasks : List Task) (queue : List ℕ)
    → ((t : Task) → get_elem? tasks n ≡ some t → is_queued (change t).phase ≡ is_queued t.phase)
    → IsQueue tasks queue
    → IsQueue (modify n change tasks) queue
IsQueue-modify n change tasks queue same g = record {
  first = g.first;
  size = g.size;
  consecutive = g.consecutive;
  newest_last = g.newest_last ∙ sym (length-modify n change tasks);
  taken = λ m t' at'. elim (Option-cases (get_elem? tasks m)) [
    | inl absent ↦
        absurd (cc (get_elem?-modify n m change tasks, ap (changed (n == m) change) absent))
    | inr (t, at) ↦
        let now = get_elem?-modify n m change tasks ∙ ap (changed (n == m) change) at in
        elim (Bool-cases (n == m)) [
          | inl here ↦
              let one : change t ≡ t' = ground arith in
              ap (λ q. is_queued q.phase) (sym one) ∙ same t (ground arith) ∙ g.taken m t at
          | inr other ↦
              let one : t ≡ t' = ground arith in
              ap (λ q. is_queued q.phase) (sym one) ∙ g.taken m t at
        ]
  ];
}

pub front_of_queue :
    (first size n : ℕ) (rest : List ℕ)
    → n ∷ rest ≡ from first size
    → (left : ℕ) × (size ≡ suc left) × (n ≡ first) × (rest ≡ from (suc first) left)
front_of_queue first zero n rest e = absurd (cc)
front_of_queue first (suc left) n rest e = (left, refl, cc, cc)

-- The front of the queue is taken.
pub IsQueue-take :
    (n : ℕ) (rest : List ℕ) (tasks : List Task)
    → IsQueue tasks (n ∷ rest)
    → IsQueue (modify n (to_phase Phase.waiting) tasks) rest
IsQueue-take n rest tasks g =
    let (left, all, here, behind) = front_of_queue g.first g.size n rest g.consecutive in
    record {
      first = suc g.first;
      size = left;
      consecutive = behind;
      newest_last =
          omega (arith, g.newest_last, all, length-modify n (to_phase Phase.waiting) tasks);
      taken = λ m t' at'. elim (Option-cases (get_elem? tasks m)) [
        | inl absent ↦ absurd (
            cc (
              get_elem?-modify n m (to_phase Phase.waiting) tasks,
              ap (changed (n == m) (to_phase Phase.waiting)) absent,
            ))
        | inr (t, at) ↦
            let now =
              get_elem?-modify n m (to_phase Phase.waiting) tasks
              ∙ ap (changed (n == m) (to_phase Phase.waiting)) at in
            let before = g.taken m t at in
            elim (Bool-cases (n == m)) [
              | inl same ↦
                  let one : to_phase Phase.waiting t ≡ t' = ground arith in
                  ap (λ q. is_queued q.phase) (sym one) ∙ ground arith
              | inr other ↦
                  let one : t ≡ t' = ground arith in
                  ap (λ q. is_queued q.phase) (sym one) ∙ before ∙ ground arith
            ]
      ];
    }

pub IsQueue-admit :
    (tasks : List Task) (queue : List ℕ) (t : Task)
    → t.phase ≡ Phase.queued
    → IsQueue tasks queue
    → IsQueue (tasks ++ t ∷ []) (queue ++ length tasks ∷ [])
IsQueue-admit tasks queue t fresh g = record {
  first = g.first;
  size = suc g.size;
  consecutive =
      ap (λ q. q ++ length tasks ∷ []) g.consecutive
      ∙ ap (λ n. from g.first g.size ++ n ∷ []) (sym g.newest_last)
      ∙ sym (from-snoc g.first g.size);
  newest_last = omega (arith, g.newest_last, length-append tasks (t ∷ []));
  taken = λ m u at. elim (Bool-cases (length tasks == m)) [
    | inl here ↦
        let one : t ≡ u = cc (get_elem?-snoc tasks t m, at, here) in
        ap (λ q. is_queued q.phase) (sym one) ∙ ap is_queued fresh ∙ ground (arith, g.newest_last)
    | inr other ↦ g.taken m u (ground (arith, get_elem?-snoc tasks t m))
  ];
}

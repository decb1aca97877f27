-- ===== src/Executor/Places.antt =====
-- The places of a task in the queues of src/grpc/ingest_task_executor.cpp, and how a step changes them.
use time_series_engine.Base.{
  ℕ, zero, suc, ◌+◌, ◌==◌, ◌≡◌, refl, sym, ap, ◌⊎◌, Bool, true, false, some, List, [], ◌∷◌, ◌++◌,
  length, set, get_elem?, if◌then◌else◌, arith,
}
use time_series_engine.Executor.Routing.{lanes_of}
use time_series_engine.Executor.Pipeline.{ColdWorker, after_write, Phase, Task, modify, push_cold}

abbrev pub one_if : Bool → ℕ
one_if b = if b then 1 else 0

abbrev pub occurrences : ℕ → List ℕ → ℕ
occurrences n [] = 0
occurrences n (m ∷ queue) = one_if (m == n) + occurrences n queue

-- The cold queues that hold the task, and the cold workers that write it.
abbrev pub queued_in : ℕ → List (List ℕ) → ℕ
queued_in n [] = 0
queued_in n (queue ∷ queues) = occurrences n queue + queued_in n queues

abbrev pub written_in : ℕ → List ColdWorker → ℕ
written_in n [] = 0
written_in n (ColdWorker.idling ∷ workers) = written_in n workers
written_in n (ColdWorker.busy_with m ∷ workers) = one_if (m == n) + written_in n workers
written_in n (ColdWorker.counting_off ∷ workers) = written_in n workers

-- The cold workers that have a task to count off.
abbrev pub cold_counting_off : List ColdWorker → ℕ
cold_counting_off [] = 0
cold_counting_off (ColdWorker.idling ∷ workers) = cold_counting_off workers
cold_counting_off (ColdWorker.busy_with m ∷ workers) = cold_counting_off workers
cold_counting_off (ColdWorker.counting_off ∷ workers) = suc (cold_counting_off workers)

abbrev pub hot_lane : Task → ℕ
hot_lane t = one_if t.hot_lane_open

-- A hot lane is open as long as the hot update has not ended.
abbrev pub HasHotLane : Task → Type 0
HasHotLane t = (t.phase ≡ Phase.finished) ⊎ (t.hot_lane_open ≡ true)

-- Whether a lane of the task is open.
abbrev pub is_open : Task → ℕ
is_open t = one_if (if t.remaining_lanes == 0 then false else true)

abbrev pub open_tasks : List Task → ℕ
open_tasks [] = 0
open_tasks (t ∷ tasks) = is_open t + open_tasks tasks

pub open_tasks-modify :
    (n : ℕ) (change : Task → Task) (tasks : List Task) (t : Task)
    → get_elem? tasks n ≡ some t
    → open_tasks (modify n change tasks) + is_open t ≡ open_tasks tasks + is_open (change t)
unfolding modify
open_tasks-modify n change [] t at = absurd (cc)
open_tasks-modify zero change (u ∷ tasks) t at =
    let same : u ≡ t = cc in
    let before = ap is_open same in let after = ap (λ v. is_open (change v)) same in omega arith
open_tasks-modify (suc n) change (u ∷ tasks) t at =
    omega (arith, open_tasks-modify n change tasks t at)

pub modify-modify :
    (n : ℕ) (f g : Task → Task) (tasks : List Task)
    → modify n f (modify n g tasks) ≡ modify n (λ t. f (g t)) tasks
unfolding modify
modify-modify n f g [] = refl
modify-modify zero f g (t ∷ tasks) = refl
modify-modify (suc n) f g (t ∷ tasks) = ap (λ l. t ∷ l) (modify-modify n f g tasks)

pub queued_in-pop :
    (m n w : ℕ) (rest : List ℕ) (queues : List (List ℕ))
    → get_elem? queues w ≡ some (n ∷ rest)
    → queued_in m (set queues w rest) + one_if (n == m) ≡ queued_in m queues
queued_in-pop m n w rest [] at = absurd (cc)
queued_in-pop m n zero rest (queue ∷ queues) at =
    let same : queue ≡ n ∷ rest = cc in omega (arith, ap (occurrences m) same)
queued_in-pop m n (suc w) rest (queue ∷ queues) at =
    omega (arith, queued_in-pop m n w rest queues at)

-- What each of the three steps of a cold worker changes.
pub written_in-take :
    (m n w : ℕ) (workers : List ColdWorker)
    → get_elem? workers w ≡ some ColdWorker.idling
    → let after = set workers w (ColdWorker.busy_with n) in
      (written_in m after ≡ one_if (n == m) + written_in m workers)
      × (cold_counting_off after ≡ cold_counting_off workers)
written_in-take m n w [] at = absurd (cc)
written_in-take m n zero (ColdWorker.idling ∷ workers) at = (refl, refl)
written_in-take m n zero (ColdWorker.busy_with k ∷ workers) at = absurd (cc)
written_in-take m n zero (ColdWorker.counting_off ∷ workers) at = absurd (cc)
written_in-take m n (suc w) (ColdWorker.idling ∷ workers) at = written_in-take m n w workers at
written_in-take m n (suc w) (ColdWorker.busy_with k ∷ workers) at =
    let (places, counts) = written_in-take m n w workers at in (omega arith, counts)
written_in-take m n (suc w) (ColdWorker.counting_off ∷ workers) at =
    let (places, counts) = written_in-take m n w workers at in (places, omega arith)

pub written_in-end :
    (m n w : ℕ) (last : Bool) (workers : List ColdWorker)
    → get_elem? workers w ≡ some (ColdWorker.busy_with n)
    → let after = set workers w (after_write last) in
      (one_if (n == m) + written_in m after ≡ written_in m workers)
      × (cold_counting_off after ≡ cold_counting_off workers + one_if last)
written_in-end m n w last [] at = absurd (cc)
written_in-end m n zero last (ColdWorker.idling ∷ workers) at = absurd (cc)
written_in-end m n zero last (ColdWorker.counting_off ∷ workers) at = absurd (cc)
written_in-end m n zero true (ColdWorker.busy_with k ∷ workers) at =
    let same : k ≡ n = cc in
    (ap (λ j. one_if (j == m) + written_in m workers) (sym same), omega arith)
written_in-end m n zero false (ColdWorker.busy_with k ∷ workers) at =
    let same : k ≡ n = cc in
    (ap (λ j. one_if (j == m) + written_in m workers) (sym same), omega arith)
written_in-end m n (suc w) last (ColdWorker.idling ∷ workers) at =
    written_in-end m n w last workers at
written_in-end m n (suc w) last (ColdWorker.busy_with k ∷ workers) at =
    let (places, counts) = written_in-end m n w last workers at in (omega arith, counts)
written_in-end m n (suc w) last (ColdWorker.counting_off ∷ workers) at =
    let (places, counts) = written_in-end m n w last workers at in (places, omega arith)

pub written_in-count_off :
    (m w : ℕ) (workers : List ColdWorker)
    → get_elem? workers w ≡ some ColdWorker.counting_off
    → let after = set workers w ColdWorker.idling in
      (written_in m after ≡ written_in m workers)
      × (suc (cold_counting_off after) ≡ cold_counting_off workers)
written_in-count_off m w [] at = absurd (cc)
written_in-count_off m zero (ColdWorker.idling ∷ workers) at = absurd (cc)
written_in-count_off m zero (ColdWorker.busy_with k ∷ workers) at = absurd (cc)
written_in-count_off m zero (ColdWorker.counting_off ∷ workers) at = (refl, refl)
written_in-count_off m (suc w) (ColdWorker.idling ∷ workers) at =
    written_in-count_off m w workers at
written_in-count_off m (suc w) (ColdWorker.busy_with k ∷ workers) at =
    let (places, counts) = written_in-count_off m w workers at in (omega arith, counts)
written_in-count_off m (suc w) (ColdWorker.counting_off ∷ workers) at =
    let (places, counts) = written_in-count_off m w workers at in (places, omega arith)

pub occurrences-snoc :
    (m task : ℕ) (queue : List ℕ)
    → occurrences m (queue ++ task ∷ []) ≡ occurrences m queue + one_if (task == m)
occurrences-snoc m task [] = omega arith
occurrences-snoc m task (n ∷ queue) = omega (arith, occurrences-snoc m task queue)

-- The lanes of an admitted task: its place in the hot queue, and one in a cold queue for each flag.
pub queued_in-push_cold :
    (m task : ℕ) (works : List Bool) (queues : List (List ℕ))
    → length works ≡ length queues
    → queued_in m (push_cold task works queues) + one_if (task == m)
      ≡ queued_in m queues + (if task == m then lanes_of works else 0)
unfolding push_cold lanes_of
queued_in-push_cold m task [] [] same = ground arith
queued_in-push_cold m task [] (queue ∷ queues) same = absurd (omega arith)
queued_in-push_cold m task (has_work ∷ works) [] same = absurd (omega arith)
queued_in-push_cold m task (true ∷ works) (queue ∷ queues) same =
    ground
      (arith, occurrences-snoc m task queue, queued_in-push_cold m task works queues (omega arith))
queued_in-push_cold m task (false ∷ works) (queue ∷ queues) same =
    ground (arith, queued_in-push_cold m task works queues (omega arith))

pub length-push_cold :
    (task : ℕ) (works : List Bool) (queues : List (List ℕ))
    → length works ≡ length queues
    → length (push_cold task works queues) ≡ length queues
unfolding push_cold
length-push_cold task [] queues same = refl
length-push_cold task (has_work ∷ works) [] same = refl
length-push_cold task (has_work ∷ works) (queue ∷ queues) same =
    ap suc (length-push_cold task works queues (omega arith))

-- ===== src/Executor/HotWork.antt =====
-- What the hot workers of src/grpc/ingest_task_executor.cpp have before them.
use time_series_engine.Base.{
  ℕ, zero, suc, ◌+◌, ◌<◌, ◌≤◌, Bool, true, false, if◌then◌else◌, ◌≡◌, refl, sym, ap, subst, ◌∙◌,
  ◌⊎◌, inl, inr, some, List, [], ◌∷◌, get_elem?, All, arith,
}
use time_series_engine.Executor.Pipeline.{Phase, Task, modify, one_lane_less, busy_workers}
use time_series_engine.Executor.Queue.{is_queued, from}

-- The steps of a hot worker that a task has before it, with the one that may count it off.
abbrev pub phase_steps : Phase → Bool → ℕ
phase_steps Phase.queued opened = 5
phase_steps Phase.waiting opened = 4
phase_steps Phase.updating opened = 3
phase_steps Phase.finished true = 2
phase_steps Phase.finished false = 0

abbrev pub steps_left : Task → ℕ
steps_left t = phase_steps t.phase t.hot_lane_open

abbrev pub hot_work : List Task → ℕ
hot_work [] = 0
hot_work (t ∷ tasks) = steps_left t + hot_work tasks

pub hot_work-modify :
    (n : ℕ) (change : Task → Task) (tasks : List Task) (t : Task)
    → get_elem? tasks n ≡ some t
    → hot_work (modify n change tasks) + steps_left t ≡ hot_work tasks + steps_left (change t)
unfolding modify
hot_work-modify n change [] t at = absurd (cc)
hot_work-modify zero change (u ∷ tasks) t at =
    let same : u ≡ t = cc in
    let before = ap steps_left same in
    let after = ap (λ v. steps_left (change v)) same in omega arith
hot_work-modify (suc n) change (u ∷ tasks) t at = omega (arith, hot_work-modify n change tasks t at)

pub hot_work-one_lane_less :
    (n : ℕ) (tasks : List Task) → hot_work (modify n one_lane_less tasks) ≡ hot_work tasks
unfolding modify
hot_work-one_lane_less n [] = refl
hot_work-one_lane_less zero (t ∷ tasks) = refl
hot_work-one_lane_less (suc n) (t ∷ tasks) =
    ap (λ m. steps_left t + m) (hot_work-one_lane_less n tasks)

-- A task whose hot lane has ended.
abbrev pub IsEnded : Task → Type 0
IsEnded t = (t.phase ≡ Phase.finished) × (t.hot_lane_open ≡ false)

pub busy_workers-zero :
    (tasks : List Task)
    → ((n : ℕ) (t : Task) → get_elem? tasks n ≡ some t → IsEnded t ⊎ (t.phase ≡ Phase.queued))
    → busy_workers tasks ≡ 0
unfolding busy_workers
busy_workers-zero [] idle = refl
busy_workers-zero (t ∷ tasks) idle =
    let rest = busy_workers-zero tasks (λ n u at. idle (suc n) u at) in
    elim (idle 0 t refl) [
      | inl (e, closed) ↦ rw (e, closed, busy_workers) (omega (arith, rest))
      | inr e ↦ rw (e, busy_workers) rest
    ]

pub is_queued-true : (phase : Phase) → is_queued phase ≡ true → phase ≡ Phase.queued
is_queued-true Phase.queued e = refl
is_queued-true Phase.waiting e = absurd (cc)
is_queued-true Phase.updating e = absurd (cc)
is_queued-true Phase.finished e = absurd (cc)

-- The first task whose hot lane has not ended.
abbrev pub IsLeast : List Task → ℕ → Task → Type 0
IsLeast tasks n t =
    (get_elem? tasks n ≡ some t)
    × (0 < steps_left t)
    × ((m : ℕ) (u : Task) → m < n → get_elem? tasks m ≡ some u → IsEnded u)

IsEnded-before :
    (t : Task) (tasks : List Task) (n : ℕ)
    → IsEnded t
    → ((m : ℕ) (u : Task) → m < n → get_elem? tasks m ≡ some u → IsEnded u)
    → (m : ℕ) (u : Task) → m < suc n
    → get_elem? (t ∷ tasks) m ≡ some u
    → IsEnded u
IsEnded-before t tasks n ended before zero u lt at =
    let same : t ≡ u = cc in subst IsEnded same ended
IsEnded-before t tasks n ended before (suc m) u lt at = before m u (omega arith) at

none_left :
    (phase : Phase) (opened : Bool)
    → ((phase ≡ Phase.finished) × (opened ≡ false)) ⊎ (0 < phase_steps phase opened)
none_left Phase.queued opened = inr (omega arith)
none_left Phase.waiting opened = inr (omega arith)
none_left Phase.updating opened = inr (omega arith)
none_left Phase.finished true = inr (omega arith)
none_left Phase.finished false = inl (refl, refl)

-- The steps that a phase leaves.
pub steps_of :
    (t : Task) (phase : Phase) (opened : Bool)
    → t.phase ≡ phase
    → t.hot_lane_open ≡ opened
    → steps_left t ≡ phase_steps phase opened
steps_of t phase opened e f = ap (λ p. phase_steps p t.hot_lane_open) e ∙ ap (phase_steps phase) f

pub finished_le : (opened : Bool) → phase_steps Phase.finished opened ≤ 2
finished_le true = omega arith
finished_le false = omega arith

pub next_task : (tasks : List Task) → All IsEnded tasks ⊎ ((n : ℕ) × (t : Task) × IsLeast tasks n t)
next_task [] = inl tt
next_task (t ∷ tasks) = elim (none_left t.phase t.hot_lane_open) [
  | inr left ↦ inr (0, t, (refl, left, (λ m u lt at. absurd (omega arith))))
  | inl ended ↦ elim (next_task tasks) [
    | inl all ↦ inl (ended, all)
    | inr (n, u, (at, left, before)) ↦
        inr (suc n, u, (at, left, IsEnded-before t tasks n ended before))
  ]
]

pub one_if_le : (b : Bool) → (if b then 1 else 0) ≤ 1
one_if_le true = omega arith
one_if_le false = omega arith

pub queue_front :
    (first size n : ℕ) (queue : List ℕ)
    → queue ≡ from first size
    → n ≡ first
    → 0 < size
    → (rest : List ℕ) × (queue ≡ n ∷ rest)
queue_front first zero n queue e same some_size = absurd (omega arith)
queue_front first (suc left) n queue e same some_size =
    (from (suc first) left, e ∙ ap (λ m. m ∷ from (suc first) left) (sym same))

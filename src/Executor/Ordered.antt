-- ===== src/Executor/Ordered.antt =====
-- The order of hot updates in src/grpc/ingest_task_executor.cpp: a task, its predecessors, and the last
-- task of each sequence.
use time_series_engine.Base.{
  ℕ, zero, suc, ◌<◌, ◌≤◌, ◌==◌, ◌≡◌, refl, sym, ap, subst, ◌∙◌, ◌⊎◌, inl, inr, Bool, true, false,
  Option, none, some, List, [], ◌∷◌, String, get_elem?, if◌then◌else◌, All, In, All-In, is_some,
  arith, Option-cases, Bool-cases,
}
use native.Mathlib.Decide.{dec_lt}
use time_series_engine.Base.Assoc.{Table, lookup, has_id}
use time_series_engine.Base.Checked.{All-map}
use time_series_engine.Executor.Pipeline.{Phase, Task, modify, PhaseIs}

abbrev pub HasKey : List Task → ℕ → String → Type 0
HasKey tasks n key = (t : Task) × (get_elem? tasks n ≡ some t) × (has_id key t.keys ≡ true)

-- The hot update has begun.
abbrev pub has_begun : Phase → Bool
has_begun Phase.queued = false
has_begun Phase.waiting = false
has_begun Phase.updating = true
has_begun Phase.finished = true

-- A predecessor that is on the chain of the key from an earlier task.
abbrev pub OnChain : List Task → List ℕ → ℕ → ℕ → String → Type 0
OnChain tasks predecessors n m key =
    (c : ℕ) × In c predecessors × (m ≤ c) × (c < n) × HasKey tasks c key

pub record IsOrdered (tasks : List Task) (tails : Table ℕ) : Type 0 where
  pub tails_last :
      (key : String) (n : ℕ)
      → lookup key tails ≡ some n
      → HasKey tasks n key × ((m : ℕ) → HasKey tasks m key → m ≤ n)
  pub tails_found : (n : ℕ) (key : String) → HasKey tasks n key → is_some (lookup key tails) ≡ true
  pub earlier :
      (n : ℕ) (t : Task) → get_elem? tasks n ≡ some t → All (λ c. c < n) t.hot_predecessors
  pub chained :
      (n : ℕ) (t : Task)
      → get_elem? tasks n ≡ some t
      → (m : ℕ) (key : String) → m < n
      → has_id key t.keys ≡ true
      → HasKey tasks m key
      → OnChain tasks t.hot_predecessors n m key
  pub waited :
      (n : ℕ) (t : Task)
      → get_elem? tasks n ≡ some t
      → has_begun t.phase ≡ true
      → All (PhaseIs Phase.finished tasks) t.hot_predecessors

-- A task that has begun has every earlier task of its sequences behind it.
pub order_of_tasks :
    (tasks : List Task) (tails : Table ℕ)
    → IsOrdered tasks tails
    → (bound n m : ℕ) (key : String) (t : Task) → n < bound
    → m < n
    → get_elem? tasks n ≡ some t
    → has_id key t.keys ≡ true
    → HasKey tasks m key
    → has_begun t.phase ≡ true
    → PhaseIs Phase.finished tasks m
order_of_tasks tasks tails g zero n m key t fits lt at here there begun = absurd (omega arith)
order_of_tasks tasks tails g (suc bound) n m key t fits lt at here there begun =
    let (c, on, le, below, (u, at', has)) = g.chained n t at m key lt here there in
    let (v, at'', done) =
      All-In (PhaseIs Phase.finished tasks) c t.hot_predecessors (g.waited n t at begun) on in
    elim (dec_lt m c) [
      | yes before ↦
          let same : u ≡ v = cc in
          order_of_tasks tasks tails g bound c m key u (omega arith) before at' has there
            (ap (λ q. has_begun q.phase) same ∙ ap has_begun done)
      | no last ↦
          let one : c ≡ m = omega arith in subst (PhaseIs Phase.finished tasks) one (v, at'', done)
    ]

-- The tasks of a later state: none is lost, none changes its keys or predecessors or is undone, and
-- one begins only behind its predecessors.
pub record Advances (tasks tasks' : List Task) : Type 0 where
  pub forth :
      (n : ℕ) (t : Task)
      → get_elem? tasks n ≡ some t
      → (t' : Task) × (get_elem? tasks' n ≡ some t')
        × (t'.keys ≡ t.keys)
        × (t.phase ≡ Phase.finished → t'.phase ≡ Phase.finished)
  pub back :
      (n : ℕ) (t' : Task)
      → get_elem? tasks' n ≡ some t'
      → (t : Task) × (get_elem? tasks n ≡ some t)
        × (t'.keys ≡ t.keys)
        × (t'.hot_predecessors ≡ t.hot_predecessors)
        × (has_begun t'.phase ≡ true
            → (has_begun t.phase ≡ true) ⊎ All (PhaseIs Phase.finished tasks) t.hot_predecessors)

HasKey-forth :
    (tasks tasks' : List Task)
    → Advances tasks tasks'
    → (n : ℕ) (key : String) → HasKey tasks n key
    → HasKey tasks' n key
HasKey-forth tasks tasks' a n key (t, at, has) =
    let (t', at', same, _) = a.forth n t at in (t', at', ap (has_id key) same ∙ has)

HasKey-back :
    (tasks tasks' : List Task)
    → Advances tasks tasks'
    → (n : ℕ) (key : String) → HasKey tasks' n key
    → HasKey tasks n key
HasKey-back tasks tasks' a n key (t', at', has) =
    let (t, at, same, _, _) = a.back n t' at' in (t, at, ap (has_id key) (sym same) ∙ has)

finished_forth :
    (tasks tasks' : List Task)
    → Advances tasks tasks'
    → (ns : List ℕ) → All (PhaseIs Phase.finished tasks) ns
    → All (PhaseIs Phase.finished tasks') ns
finished_forth tasks tasks' a ns all =
    All-map (λ n (t, at, done). let (t', at', _, stays) = a.forth n t at in (t', at', stays done))
      ns all

pub IsOrdered-Advances :
    (tasks tasks' : List Task) (tails : Table ℕ)
    → Advances tasks tasks'
    → IsOrdered tasks tails
    → IsOrdered tasks' tails
IsOrdered-Advances tasks tasks' tails a g = record {
  tails_last = λ key n at.
      let (has, last) = g.tails_last key n at in
      (HasKey-forth tasks tasks' a n key has, λ m h. last m (HasKey-back tasks tasks' a m key h));
  tails_found = λ n key h. g.tails_found n key (HasKey-back tasks tasks' a n key h);
  earlier = λ n t' at'.
      let (t, at, _, same, _) = a.back n t' at' in
      subst (All (λ c. c < n)) (sym same) (g.earlier n t at);
  chained = λ n t' at' m key lt has h.
      let (t, at, keys, same, _) = a.back n t' at' in
      let (c, on, le, below, here) =
        g.chained n t at m key lt (ap (has_id key) (sym keys) ∙ has)
          (HasKey-back tasks tasks' a m key h) in
      (c, subst (In c) (sym same) on, le, below, HasKey-forth tasks tasks' a c key here);
  waited = λ n t' at' begun.
      let (t, at, _, same, since) = a.back n t' at' in
      let before : All (PhaseIs Phase.finished tasks) t.hot_predecessors = elim (since begun) [
        | inl already ↦ g.waited n t at already
        | inr done ↦ done
      ] in
      subst (All (PhaseIs Phase.finished tasks')) (sym same)
        (finished_forth tasks tasks' a t.hot_predecessors before);
}

-- What a step may make of a task.
abbrev pub Changes : List Task → Task → Task → Type 0
Changes tasks t t' =
    (t'.keys ≡ t.keys)
    × (t'.hot_predecessors ≡ t.hot_predecessors)
    × (t.phase ≡ Phase.finished → t'.phase ≡ Phase.finished)
    × (has_begun t'.phase ≡ true
        → (has_begun t.phase ≡ true) ⊎ All (PhaseIs Phase.finished tasks) t.hot_predecessors)

pub Changes-refl : (tasks : List Task) (t : Task) → Changes tasks t t
Changes-refl tasks t = (refl, refl, (λ e. e), (λ e. inl e))

abbrev pub changed : Bool → (Task → Task) → Option Task → Option Task
changed here change none = none
changed here change (some t) = some (if here then change t else t)

pub get_elem?-modify :
    (n m : ℕ) (change : Task → Task) (tasks : List Task)
    → get_elem? (modify n change tasks) m ≡ changed (n == m) change (get_elem? tasks m)
unfolding modify
get_elem?-modify n m change [] = refl
get_elem?-modify zero zero change (t ∷ tasks) = refl
get_elem?-modify zero (suc m) change (t ∷ tasks) = elim (Option-cases (get_elem? tasks m)) [
  | inl e ↦ ground arith
  | inr (u, e) ↦ ground arith
]
get_elem?-modify (suc n) zero change (t ∷ tasks) = ground arith
get_elem?-modify (suc n) (suc m) change (t ∷ tasks) =
    ground (arith, get_elem?-modify n m change tasks)

pub modify-Advances :
    (n : ℕ) (change : Task → Task) (tasks : List Task)
    → ((t : Task) → get_elem? tasks n ≡ some t → Changes tasks t (change t))
    → Advances tasks (modify n change tasks)
modify-Advances n change tasks changes = record {
  forth = λ m t at.
      let now = get_elem?-modify n m change tasks ∙ ap (changed (n == m) change) at in
      elim (Bool-cases (n == m)) [
        | inl here ↦
            let (keys, _, stays, _) = changes t (ground arith) in
            (change t, ground arith, keys, stays)
        | inr other ↦ (t, ground arith, refl, (λ e. e))
      ];
  back = λ m t' at'. elim (Option-cases (get_elem? tasks m)) [
    | inl absent ↦
        absurd (cc (get_elem?-modify n m change tasks, ap (changed (n == m) change) absent))
    | inr (t, at) ↦
        let now = get_elem?-modify n m change tasks ∙ ap (changed (n == m) change) at in
        elim (Bool-cases (n == m)) [
          | inl here ↦
              let same : change t ≡ t' = ground arith in
              let (keys, predecessors, _, since) = changes t (ground arith) in
              (
                t,
                at,
                ap (λ q. q.keys) (sym same) ∙ keys,
                ap (λ q. q.hot_predecessors) (sym same) ∙ predecessors,
                (λ begun. since (ap (λ q. has_begun q.phase) same ∙ begun)),
              )
          | inr other ↦
              let same : t ≡ t' = ground arith in
              (
                t,
                at,
                ap (λ q. q.keys) (sym same),
                ap (λ q. q.hot_predecessors) (sym same),
                (λ begun. inl (ap (λ q. has_begun q.phase) same ∙ begun)),
              )
        ]
  ];
}

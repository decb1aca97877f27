-- ===== src/Executor/Admitted.antt =====
-- The admission of a task in src/grpc/ingest_task_executor.cpp, and the order of hot updates.
use time_series_engine.Base.{
  ℕ, ◌<◌, ◌≤◌, ◌==◌, ◌≡◌, refl, sym, ap, subst, ◌∙◌, ◌⊎◌, inl, inr, true, false, some, List, [],
  ◌∷◌, ◌++◌, String, str_eq, eq_iff, length, get_elem?, if◌then◌else◌, All, In, arith, Option-cases,
  Bool-cases, get_elem?-lt, get_elem?-snoc,
}
use time_series_engine.Base.Assoc.{Table, lookup, insert, lookup-insert, has_id}
use time_series_engine.Base.Checked.{All-map}
use time_series_engine.Executor.Pipeline.{Phase, Task, link_tails, Distinct}
use time_series_engine.Executor.Ordered.{HasKey, OnChain, IsOrdered}

-- The links of a task with distinct keys.
module _ (task : ℕ) where
  linked_lem :
      (keys : List String) (tails : Table ℕ) (key : String)
      → lookup key (link_tails task keys tails).1
        ≡ (if has_id key keys then some task else lookup key tails)
  unfolding link_tails has_id
  linked_lem [] tails key = refl
  linked_lem (k ∷ keys) tails key =
      ground (arith, linked_lem keys (insert k task tails) key, lookup-insert k key task tails)

  tail_kept :
      (k key : String) (keys : List String) (tails : Table ℕ)
      → has_id k keys ≡ false
      → has_id key keys ≡ true
      → lookup key (insert k task tails) ≡ lookup key tails
  tail_kept k key keys tails fresh has = elim (Bool-cases (str_eq k key)) [
    | inl same ↦ absurd (cc (ap (λ q. has_id q keys) ((eq_iff k key).0 same), fresh, has))
    | inr other ↦ ground (arith, lookup-insert k key task tails)
  ]

  -- A predecessor is the tail of one of the keys.
  abbrev IsTail : List String → Table ℕ → ℕ → Type 0
  IsTail keys tails c = (key : String) × (has_id key keys ≡ true) × (lookup key tails ≡ some c)

  IsTail-behind :
      (k : String) (keys : List String) (tails : Table ℕ) (c : ℕ)
      → has_id k keys ≡ false
      → IsTail keys (insert k task tails) c
      → IsTail (k ∷ keys) tails c
  unfolding has_id
  IsTail-behind k keys tails c fresh (key, has, at) =
      (key, ground arith, sym (tail_kept k key keys tails fresh has) ∙ at)

  predecessors-IsTail :
      (keys : List String) (tails : Table ℕ)
      → Distinct keys
      → All (IsTail keys tails) (link_tails task keys tails).0
  unfolding link_tails has_id
  predecessors-IsTail [] tails d = tt
  predecessors-IsTail (k ∷ keys) tails d =
      let rest : All (IsTail (k ∷ keys) tails) (link_tails task keys (insert k task tails)).0 =
        All-map (λ c h. IsTail-behind k keys tails c d.0 h) _
          (predecessors-IsTail keys (insert k task tails) d.1) in
      elim (Option-cases (lookup k tails)) [
        | inl absent ↦ rw (absent, link_tails) rest
        | inr (c, at) ↦ rw (at, link_tails) ((k, ground (arith, eq_iff k k), at), rest)
      ]

  tail_In_predecessors :
      (keys : List String) (tails : Table ℕ) (key : String) (c : ℕ)
      → Distinct keys
      → has_id key keys ≡ true
      → lookup key tails ≡ some c
      → In c (link_tails task keys tails).0
  unfolding link_tails has_id
  tail_In_predecessors [] tails key c d has at = absurd (cc)
  tail_In_predecessors (k ∷ keys) tails key c d has at = elim (Bool-cases (str_eq k key)) [
    | inl same ↦
        let there : lookup k tails ≡ some c =
          ap (λ q. lookup q tails) ((eq_iff k key).0 same) ∙ at in
        rw (there, link_tails) (inl refl)
    | inr other ↦
        let has' : has_id key keys ≡ true = ground arith in
        let rest =
          tail_In_predecessors keys (insert k task tails) key c d.1 has'
            (tail_kept k key keys tails d.0 has' ∙ at) in
        elim (Option-cases (lookup k tails)) [
          | inl absent ↦ rw (absent, link_tails) rest
          | inr (b, there) ↦ rw (there, link_tails) (inr rest)
        ]
  ]

module _ (tasks : List Task) (tails : Table ℕ) (keys : List String) (lanes : ℕ)
    (distinct : Distinct keys) (g : IsOrdered tasks tails) where
  abbrev pub newest : ℕ
  newest = length tasks

  abbrev pub new_task : Task
  new_task = record {
    keys = keys;
    hot_predecessors = (link_tails newest keys tails).0;
    phase = Phase.queued;
    hot_lane_open = true;
    remaining_lanes = lanes;
  }

  abbrev pub more : List Task
  more = tasks ++ new_task ∷ []

  pub old_at : (n : ℕ) (t : Task) → get_elem? tasks n ≡ some t → get_elem? more n ≡ some t
  old_at n t at = ground (arith, get_elem?-snoc tasks new_task n, get_elem?-lt tasks n at)

  pub more_at :
      (n : ℕ) (t : Task)
      → get_elem? more n ≡ some t
      → ((n ≡ newest) × (t ≡ new_task)) ⊎ (get_elem? tasks n ≡ some t)
  more_at n t at = elim (Bool-cases (newest == n)) [
    | inl last ↦ inl (ground arith, cc (get_elem?-snoc tasks new_task n, at, last))
    | inr other ↦ inr (ground (arith, get_elem?-snoc tasks new_task n))
  ]

  HasKey-old : (n : ℕ) (key : String) → HasKey tasks n key → HasKey more n key
  HasKey-old n key (t, at, has) = (t, old_at n t at, has)

  HasKey-more :
      (n : ℕ) (key : String)
      → HasKey more n key
      → ((n ≡ newest) × (has_id key keys ≡ true)) ⊎ HasKey tasks n key
  HasKey-more n key (t, at, has) = elim (more_at n t at) [
    | inl (last, same) ↦ inl (last, ap (λ q. has_id key q.keys) (sym same) ∙ has)
    | inr old ↦ inr (t, old, has)
  ]

  HasKey-below : (n : ℕ) (key : String) → HasKey tasks n key → n < newest
  HasKey-below n key (t, at, has) = get_elem?-lt tasks n at

  new_tails_last :
      (key : String) (n : ℕ)
      → lookup key (link_tails newest keys tails).1 ≡ some n
      → HasKey more n key × ((m : ℕ) → HasKey more m key → m ≤ n)
  new_tails_last key n at = elim (Bool-cases (has_id key keys)) [
    | inl here ↦
        let one : newest ≡ n = ground (arith, linked_lem newest keys tails key) in
        (
          subst (λ q. HasKey more q key) one
              (new_task, ground (arith, get_elem?-snoc tasks new_task newest), here),
          (λ m h. elim (HasKey-more m key h) [
            | inl (last, _) ↦ omega arith
            | inr old ↦ omega (arith, HasKey-below m key old)
          ]),
        )
    | inr other ↦
        let (has, last) = g.tails_last key n (ground (arith, linked_lem newest keys tails key)) in
        (
          HasKey-old n key has,
          (λ m h. elim (HasKey-more m key h) [
            | inl (_, here) ↦ absurd (cc)
            | inr old ↦ last m old
          ]),
        )
  ]

  new_chained :
      (m : ℕ) (key : String)
      → m < newest
      → has_id key keys ≡ true
      → HasKey more m key
      → OnChain more (link_tails newest keys tails).0 newest m key
  new_chained m key lt has h = elim (HasKey-more m key h) [
    | inl (last, _) ↦ absurd (omega arith)
    | inr old ↦ elim (Option-cases (lookup key tails)) [
      | inl absent ↦ absurd (cc (g.tails_found m key old, absent))
      | inr (c, at) ↦
          let (here, last) = g.tails_last key c at in
          (
            c,
            tail_In_predecessors newest keys tails key c distinct has at,
            last m old,
            HasKey-below c key here,
            HasKey-old c key here,
          )
    ]
  ]

  OnChain-old :
      (predecessors : List ℕ) (n m : ℕ) (key : String)
      → OnChain tasks predecessors n m key
      → OnChain more predecessors n m key
  OnChain-old predecessors n m key (c, on, le, lt, has) = (c, on, le, lt, HasKey-old c key has)

  pub more-IsOrdered : IsOrdered more (link_tails newest keys tails).1
  more-IsOrdered = record {
    tails_last = new_tails_last;
    tails_found = λ n key h. elim (HasKey-more n key h) [
      | inl (_, here) ↦ ground (arith, linked_lem newest keys tails key)
      | inr old ↦ ground (arith, linked_lem newest keys tails key, g.tails_found n key old)
    ];
    earlier = λ n t at. elim (more_at n t at) [
      | inl (last, same) ↦
          subst (λ q. All (λ c. c < n) q.hot_predecessors) (sym same)
            (All-map
              (λ c (key, has, tail).
                let here = HasKey-below c key (g.tails_last key c tail).0 in omega arith)
              _ (predecessors-IsTail newest keys tails distinct))
      | inr old ↦ g.earlier n t old
    ];
    chained = λ n t at m key lt has h. elim (more_at n t at) [
      | inl (last, same) ↦
          subst (λ q. OnChain more q.hot_predecessors n m key) (sym same)
            (subst (λ q. OnChain more (link_tails newest keys tails).0 q m key) (sym last)
              (new_chained m key (omega arith) (ap (λ q. has_id key q.keys) (sym same) ∙ has) h))
      | inr old ↦ elim (HasKey-more m key h) [
        | inl (newer, _) ↦ absurd (omega (arith, get_elem?-lt tasks n old))
        | inr there ↦ OnChain-old t.hot_predecessors n m key (g.chained n t old m key lt has there)
      ]
    ];
    waited = λ n t at begun. elim (more_at n t at) [
      | inl (last, same) ↦ absurd (cc)
      | inr old ↦
          All-map (λ c (u, there, done). (u, old_at c u there, done)) t.hot_predecessors
            (g.waited n t old begun)
    ];
  }

-- ===== src/Engine/Combine/Grouped.antt =====
-- The grouping of rule outcomes in clauses by src/constraint_check_engine.cpp: the index of keys and
-- the clauses agree.
use time_series_engine.Base.{
  get_elem?-snoc, ℕ, suc, ◌<◌, ◌==◌, ◌≡◌, ap, subst, ◌⊎◌, inl, inr, some, List, [], ◌∷◌, ◌++◌,
  String, eq_iff, get_elem?, length, if◌then◌else◌, All, arith, Option-cases, Bool-cases,
}
use time_series_engine.Base.Assoc.{lookup, lookup-insert}
use time_series_engine.Engine.Combine.{Clauses, push_at, add_to_clause}
use time_series_engine.Engine.Combine.Members.{pushed, get_elem?-push_at}
use time_series_engine.Base.{In, In-last}
use time_series_engine.Engine.Combine.Entries.{
  IsGrouped, opened, opened-IsGrouped, extended-IsGrouped,
}

-- Each clause has a member.
abbrev pub HasMembers : Clauses → Type 0
HasMembers c = (clause : ℕ) (ms : List ℕ) → get_elem? c.members clause ≡ some ms → (i : ℕ) × In i ms

-- One outcome more: its clause is found, or opened.
pub add_to_clause-IsGrouped :
    (key : ℕ → String) (n : ℕ) (c : Clauses)
    → IsGrouped key n c
    → IsGrouped key (suc n) (add_to_clause (key n) n c)
unfolding add_to_clause opened
add_to_clause-IsGrouped key n c g = elim (Option-cases (lookup (key n) c.index)) [
  | inl absent ↦
      rw (absent, add_to_clause)
        (extended-IsGrouped key n (length c.members) (opened key n c g)
          (opened-IsGrouped key n c g absent)
          (ground (
            arith,
            lookup-insert (key n) (key n) (length c.members) c.index,
            eq_iff (key n) (key n),
          )))
  | inr (clause, at) ↦ rw (at, add_to_clause) (extended-IsGrouped key n clause c g at)
]

push_at-HasMembers :
    (outcome clause : ℕ) (clauses : List (List ℕ))
    → ((d : ℕ) (ms : List ℕ) → get_elem? clauses d ≡ some ms → (clause ≡ d) ⊎ ((i : ℕ) × In i ms))
    → (d : ℕ) (ms : List ℕ) → get_elem? (push_at clause outcome clauses) d ≡ some ms
    → (i : ℕ) × In i ms
push_at-HasMembers outcome clause clauses filled d ms e =
    elim (Option-cases (get_elem? clauses d)) [
      | inl absent ↦ absurd (
          cc (get_elem?-push_at clause outcome d clauses, ap (pushed (clause == d) outcome) absent))
      | inr (before, at) ↦
          let now : (if clause == d then before ++ outcome ∷ [] else before) ≡ ms = ground (
            arith,
            get_elem?-push_at clause outcome d clauses,
            ap (pushed (clause == d) outcome) at,
          ) in
          elim (Bool-cases (clause == d)) [
            | inl here ↦ (outcome, subst (In outcome) (rw here at now) (In-last outcome before))
            | inr other ↦ elim (filled d before at) [
              | inl same ↦ absurd (ground arith)
              | inr (i, mem) ↦ (i, subst (In i) (rw other at now) mem)
            ]
          ]
    ]

pub add_to_clause-HasMembers :
    (key : String) (n : ℕ) (c : Clauses) → HasMembers c → HasMembers (add_to_clause key n c)
unfolding add_to_clause
add_to_clause-HasMembers key n c filled = elim (Option-cases (lookup key c.index)) [
  | inl absent ↦
      rw (absent, add_to_clause)
        (push_at-HasMembers n (length c.members) (c.members ++ [] ∷ [])
          (λ d ms at. fresh_or_filled d ms at))
  | inr (clause, at) ↦
      rw (at, add_to_clause)
        (push_at-HasMembers n clause c.members (λ d ms here. inr (filled d ms here)))
]
  where
    fresh_or_filled :
        (d : ℕ) (ms : List ℕ)
        → get_elem? (c.members ++ [] ∷ []) d ≡ some ms
        → (length c.members ≡ d) ⊎ ((i : ℕ) × In i ms)
    fresh_or_filled d ms at = elim (Bool-cases (length c.members == d)) [
      | inl here ↦ inl (ground arith)
      | inr other ↦ inr (filled d ms (ground (arith, get_elem?-snoc c.members [] d)))
    ]

-- The members of a clause have the key under which it stands.
pub member_keys :
    (key : ℕ → String) (n : ℕ) (c : Clauses)
    → IsGrouped key n c
    → (clause : ℕ) (ms : List ℕ) → get_elem? c.members clause ≡ some ms
    → (k : String) × (lookup k c.index ≡ some clause) × All (λ i. (i < n) × (key i ≡ k)) ms
member_keys key n c g clause ms at =
    let (k, e) = g.named clause ms at in
    let (ms', at', all) = g.indexed k clause e in
    let same : ms' ≡ ms = cc in
    (k, e, subst (λ members. All (λ i. (i < n) × (key i ≡ k)) members) same all)

-- ===== src/Engine/Combine/Entries.antt =====
-- The index of clauses in src/constraint_check_engine.cpp, when a clause is opened or extended.
use time_series_engine.Base.{
  get_elem?-snoc, get_elem?-lt, ℕ, suc, ◌<◌, ◌==◌, ◌≡◌, refl, sym, ap, subst, ◌∙◌, ◌⊎◌, inl, inr,
  Bool, true, false, none, some, List, [], ◌∷◌, ◌++◌, String, eq_iff, get_elem?, length,
  if◌then◌else◌, All, All-append, arith, Option-cases,
}
use time_series_engine.Base.Assoc.{lookup, insert, lookup-insert}
use time_series_engine.Base.Checked.{All-map}
use native.Mathlib.Decide.{dec_lt}
use time_series_engine.Engine.Combine.{Clauses, push_at}
use time_series_engine.Engine.Combine.Members.{pushed, get_elem?-push_at}
use time_series_engine.Base.{In, In-append, In-last}

-- The first `n` outcomes, with the given keys, are grouped.
pub record IsGrouped (key : ℕ → String) (n : ℕ) (c : Clauses) : Type 0 where
  pub indexed :
      (k : String) (clause : ℕ)
      → lookup k c.index ≡ some clause
      → (ms : List ℕ) × (get_elem? c.members clause ≡ some ms) × All (λ i. (i < n) × (key i ≡ k)) ms
  pub named :
      (clause : ℕ) (ms : List ℕ)
      → get_elem? c.members clause ≡ some ms
      → (k : String) × (lookup k c.index ≡ some clause)
  pub placed :
      (i : ℕ)
      → i < n
      → (clause : ℕ) × (ms : List ℕ) × (lookup (key i) c.index ≡ some clause)
        × (get_elem? c.members clause ≡ some ms)
        × In i ms
  pub distinct :
      (k j : String) (clause : ℕ)
      → lookup k c.index ≡ some clause
      → lookup j c.index ≡ some clause
      → k ≡ j

module _ (key : ℕ → String) (n : ℕ) (c : Clauses) (g : IsGrouped key n c) where
  -- A clause that is opened for a key that has none.
  unfoldable pub opened : Clauses
  opened = record {
    index = insert (key n) (length c.members) c.index;
    members = c.members ++ [] ∷ [];
  }

  pub old_clause :
      (k : String) (clause : ℕ) → lookup k c.index ≡ some clause → clause < length c.members
  old_clause k clause e =
      let (ms, at, all) = g.indexed k clause e in get_elem?-lt c.members clause at

  pub entry_of_opened :
      (k : String) (clause : ℕ)
      → lookup k opened.index ≡ some clause
      → ((key n ≡ k) × (clause ≡ length c.members)) ⊎ (lookup k c.index ≡ some clause)
  unfolding opened
  entry_of_opened k clause e =
      ground (arith, lookup-insert (key n) k (length c.members) c.index, eq_iff (key n) k)

  pub entry_of_old :
      lookup (key n) c.index ≡ none
      → (k : String) (clause : ℕ) → lookup k c.index ≡ some clause
      → lookup k opened.index ≡ some clause
  unfolding opened
  entry_of_old absent k clause e =
      ground (arith, lookup-insert (key n) k (length c.members) c.index, eq_iff (key n) k)

  pub member_of_old :
      (clause : ℕ) (ms : List ℕ)
      → get_elem? c.members clause ≡ some ms
      → get_elem? opened.members clause ≡ some ms
  unfolding opened
  member_of_old clause ms at =
      ground (arith, get_elem?-snoc c.members [] clause, get_elem?-lt c.members clause at)

  pub member_of_opened :
      (clause : ℕ) (ms : List ℕ)
      → get_elem? opened.members clause ≡ some ms
      → ((clause ≡ length c.members) × (ms ≡ [])) ⊎ (get_elem? c.members clause ≡ some ms)
  unfolding opened
  member_of_opened clause ms at = ground (arith, get_elem?-snoc c.members [] clause)

  pub opened-IsGrouped : lookup (key n) c.index ≡ none → IsGrouped key n opened
  unfolding opened
  opened-IsGrouped absent = record {
    indexed = λ k clause e. elim (entry_of_opened k clause e) [
      | inl (_, last) ↦ ([], ground (arith, get_elem?-snoc c.members [] clause), tt)
      | inr old ↦
          let (ms, at, all) = g.indexed k clause old in (ms, member_of_old clause ms at, all)
    ];
    named = λ clause ms e. elim (member_of_opened clause ms e) [
      | inl (last, _) ↦ (
        key n,
        ground (
          arith,
          lookup-insert (key n) (key n) (length c.members) c.index,
          eq_iff (key n) (key n),
        ),
      )
      | inr old ↦ let (k, at) = g.named clause ms old in (k, entry_of_old absent k clause at)
    ];
    placed = λ i lt.
        let (clause, ms, at, here, mem) = g.placed i lt in
        (clause, ms, entry_of_old absent (key i) clause at, member_of_old clause ms here, mem);
    distinct = λ k j clause e f. elim (entry_of_opened k clause e) [
      | inl (at, last) ↦ elim (entry_of_opened j clause f) [
        | inl (at', _) ↦ sym at ∙ at'
        | inr old ↦ absurd (omega (arith, old_clause j clause old))
      ]
      | inr old ↦ elim (entry_of_opened j clause f) [
        | inl (_, last) ↦ absurd (omega (arith, old_clause k clause old))
        | inr old' ↦ g.distinct k j clause old old'
      ]
    ];
  }

module _ (key : ℕ → String) (n clause : ℕ) (c : Clauses) (g : IsGrouped key n c)
    (found : lookup (key n) c.index ≡ some clause) where
  abbrev pub extended : Clauses
  extended = record c { members = push_at clause n c.members }

  pub later :
      (k : String) (ms : List ℕ)
      → All (λ i. (i < n) × (key i ≡ k)) ms
      → All (λ i. (i < suc n) × (key i ≡ k)) ms
  later k ms all = All-map (λ i h. (omega arith, h.1)) ms all

  pub pushed_at :
      (d : ℕ) (ms : List ℕ)
      → get_elem? c.members d ≡ some ms
      → get_elem? extended.members d ≡ some (if clause == d then ms ++ n ∷ [] else ms)
  pushed_at d ms at = get_elem?-push_at clause n d c.members ∙ ap (pushed (clause == d) n) at

  pub before_push :
      (d : ℕ) (ms : List ℕ)
      → get_elem? extended.members d ≡ some ms
      → (before : List ℕ) × (get_elem? c.members d ≡ some before)
  before_push d ms e = elim (Option-cases (get_elem? c.members d)) [
    | inl absent ↦
        absurd (cc (get_elem?-push_at clause n d c.members, ap (pushed (clause == d) n) absent))
    | inr old ↦ old
  ]

  pub extended_all :
      (here : Bool) (k : String) (ms : List ℕ)
      → (here ≡ true → key n ≡ k)
      → All (λ i. (i < n) × (key i ≡ k)) ms
      → All (λ i. (i < suc n) × (key i ≡ k)) (if here then ms ++ n ∷ [] else ms)
  extended_all true k ms same all =
      All-append (λ i. (i < suc n) × (key i ≡ k)) ms (n ∷ []) (later k ms all)
        ((omega arith, same refl), tt)
  extended_all false k ms same all = later k ms all

  pub In-extended :
      (here : Bool) (i : ℕ) (ms : List ℕ) → In i ms → In i (if here then ms ++ n ∷ [] else ms)
  In-extended true i ms mem = In-append i ms (n ∷ []) mem
  In-extended false i ms mem = mem

  pub extended-IsGrouped : IsGrouped key (suc n) extended
  extended-IsGrouped = record {
    indexed = λ k d e.
        let (ms, at, all) = g.indexed k d e in
        (
          _,
          pushed_at d ms at,
          extended_all (clause == d) k ms (λ here. g.distinct (key n) k d (ground arith) e) all,
        );
    named = λ d ms e. let (before, at) = before_push d ms e in g.named d before at;
    placed = λ i lt. elim (dec_lt i n) [
      | yes old ↦
          let (d, ms, at, here, mem) = g.placed i old in
          (d, _, at, pushed_at d ms here, In-extended (clause == d) i ms mem)
      | no last ↦
          let (ms, at, all) = g.indexed (key n) clause found in
          let same : n ≡ i = omega arith in
          (
            clause,
            ms ++ n ∷ [],
            ap (λ j. lookup (key j) c.index) (sym same) ∙ found,
            ground (arith, pushed_at clause ms at),
            subst (λ j. In j (ms ++ n ∷ [])) same (In-last n ms),
          )
    ];
    distinct = g.distinct;
  }

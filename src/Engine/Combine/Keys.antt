-- ===== src/Engine/Combine/Keys.antt =====
-- The keys of clauses in src/constraint_check_engine.cpp: two rules share one exactly if they share a clause.
use Prim.Native.Char.{Char, code}
use Prim.Native.String.append
use time_series_engine.Base.{
  ℕ, ◌≡◌, refl, sym, ap, ◌∙◌, ◌⊎◌, true, false, List, [], ◌∷◌, String, ◌<>◌, is_empty, is_nil,
  arith,
}
use time_series_engine.Types.{ConstraintRule}

-- Two rules of one clause: of the same group, or, without a group, of the same identifier.
abbrev pub SameClause : {D : Type 0} → ConstraintRule D → ConstraintRule D → Type 0
SameClause rule other =
    (rule.or_group_id ≡ other.or_group_id)
    × ((is_empty rule.or_group_id ≡ false) ⊎ (rule.constraint_id ≡ other.constraint_id))

pub is_empty-eq : (s : String) → is_empty s ≡ true → s ≡ ""
is_empty-eq String.[] e = refl
is_empty-eq (String.◌∷◌ c s) e = absurd (cc)

-- A tagged text gives its tag and the text.
pub tagged_eq :
    (c d : Char) (s t : String)
    → (String.◌∷◌ c String.[]) <> s ≡ (String.◌∷◌ d String.[]) <> t
    → (c ≡ d) × (s ≡ t)
tagged_eq c d s t e =
    let whole : String.◌∷◌ c s ≡ String.◌∷◌ d t =
      sym (append.cons c String.[] s ∙ ap (String.◌∷◌ c) (append.nil s))
      ∙ e
      ∙ append.cons d String.[] t
      ∙ ap (String.◌∷◌ d) (append.nil t) in
    (cc, cc)

abbrev pub single_tag : Char
single_tag = "\u{1f}"

abbrev pub group_tag : Char
group_tag = "\u{1e}"

pub tags_differ : single_tag ≡ group_tag → ⊥
tags_differ e = let codes : ◌≡◌ {A = ℕ} 31 30 = ap code e in omega arith

pub is_nil-eq : {A : Type 0} (xs : List A) → is_nil xs ≡ true → xs ≡ []
is_nil-eq [] e = refl
is_nil-eq (x ∷ xs) e = absurd (cc)

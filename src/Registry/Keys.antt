-- ===== src/Registry/Keys.antt =====
-- The keys of src/runtime_config_registry.cpp: a project whose name holds no separator owns its keys.
use text.Mathlib.TextLemmas.{append_assoc, append_cancel_left}
use time_series_engine.Base.{
  ◌≡◌, ◌≢◌, sym, ap, ◌∙◌, true, false, String, starts_with, starts_with-append, Avoids,
  joined_unique, joined_prefix, ◌<>◌, Bool-cases, inl, inr, arith, eq_iff, [], ◌∷◌, if◌then◌else◌,
  none, str_eq, refl, some,
}
use time_series_engine.Base.Assoc.{
  Table, lookup, contains, emplace, insert, lookup-insert, lookup-emplace,
}
use time_series_engine.Types.{ProjectId}
use time_series_engine.Registry.{
  record_separator, unit_separator, project_prefix, scoped_key, external_key, keep_others,
}

-- The name of a project that no other project's keys can run into.
abbrev pub IsPlain : ProjectId → Type 0
IsPlain = Avoids record_separator

pub scoped_key-cancel : (p a b : String) → scoped_key p a ≡ scoped_key p b → a ≡ b
unfolding scoped_key
scoped_key-cancel p a b e = append_cancel_left (project_prefix p) a b e

pub str_eq-scoped_key : (p a b : String) → str_eq (scoped_key p a) (scoped_key p b) ≡ str_eq a b
str_eq-scoped_key p a b = elim (Bool-cases (str_eq a b)) [
  | inl e ↦ let same = (eq_iff a b).0 e in rw e ((eq_iff _ _).1 (ap (scoped_key p) same))
  | inr e ↦ elim (Bool-cases (str_eq (scoped_key p a) (scoped_key p b))) [
    | inl k ↦ absurd (cc (e, (eq_iff a b).1 (scoped_key-cancel p a b ((eq_iff _ _).0 k))))
    | inr k ↦ k ∙ sym e
  ]
]

pub lookup-insert_scoped {ℓ} :
    {V : Type ℓ} (p a b : String) (v : V) (m : Table V)
    → lookup (scoped_key p b) (insert (scoped_key p a) v m)
      ≡ (if str_eq a b then some v else lookup (scoped_key p b) m)
lookup-insert_scoped p a b v m =
    rw (lookup-insert (scoped_key p a) (scoped_key p b) v m, str_eq-scoped_key p a b) refl

-- A key without the prefix is none of the project's keys.
pub lookup-insert_foreign {ℓ} :
    {V : Type ℓ} (prefix j k : String) (v : V) (m : Table V)
    → starts_with j prefix ≡ true
    → starts_with k prefix ≡ false
    → lookup k (insert j v m) ≡ lookup k m
lookup-insert_foreign prefix j k v m hj hk = elim (Bool-cases (str_eq j k)) [
  | inl e ↦ absurd (cc (hj, hk, (eq_iff j k).0 e))
  | inr e ↦ rw (lookup-insert j k v m, e) refl
]

pub scoped_key_unique :
    (p q a b : String) → IsPlain p → IsPlain q → scoped_key p a ≡ scoped_key q b → (p ≡ q) × (a ≡ b)
unfolding scoped_key
scoped_key_unique p q a b hp hq e = joined_unique record_separator p q a b hp hq e

pub scoped_key-prefix : (p a : String) → starts_with (scoped_key p a) (project_prefix p) ≡ true
unfolding scoped_key
scoped_key-prefix p a = starts_with-append (project_prefix p) a

prefix_foreign :
    (p q a : String)
    → IsPlain p
    → IsPlain q
    → q ≢ p
    → starts_with (project_prefix q <> a) (project_prefix p) ≡ false
prefix_foreign p q a hp hq ne =
    elim (Bool-cases (starts_with (project_prefix q <> a) (project_prefix p))) [
      | inl e ↦ absurd (ne (sym (joined_prefix record_separator p q a hp hq e)))
      | inr e ↦ e
    ]

pub scoped_key-foreign :
    (p q a : String)
    → IsPlain p
    → IsPlain q
    → q ≢ p
    → starts_with (scoped_key q a) (project_prefix p) ≡ false
unfolding scoped_key
scoped_key-foreign p q a hp hq ne = prefix_foreign p q a hp hq ne

-- The project stands in front of an external key.
external_key_lem :
    (p d e : String)
    → external_key p d e ≡ project_prefix p <> (d <> (String.◌∷◌ unit_separator String.[] <> e))
unfolding external_key
external_key_lem p d e =
    append_assoc (project_prefix p <> d) (String.◌∷◌ unit_separator String.[]) e
    ∙ append_assoc (project_prefix p) d (String.◌∷◌ unit_separator String.[] <> e)

pub external_key-project :
    (p q d e d' e' : String)
    → IsPlain p
    → IsPlain q
    → external_key p d e ≡ external_key q d' e'
    → p ≡ q
external_key-project p q d e d' e' hp hq h =
    (joined_unique record_separator p q _ _ hp hq
      (sym (external_key_lem p d e) ∙ h ∙ external_key_lem q d' e')).0

pub external_key-prefix :
    (p d e : String) → starts_with (external_key p d e) (project_prefix p) ≡ true
external_key-prefix p d e = rw (external_key_lem p d e) (starts_with-append (project_prefix p) _)

pub external_key-foreign :
    (p q d e : String)
    → IsPlain p
    → IsPlain q
    → q ≢ p
    → starts_with (external_key q d e) (project_prefix p) ≡ false
external_key-foreign p q d e hp hq ne = rw (external_key_lem q d e) (prefix_foreign p q _ hp hq ne)

-- A replacement table keeps its own entries, and takes over those without the prefix.
pub lookup-keep_others {ℓ} :
    {V : Type ℓ} (prefix k : String) (old new : Table V)
    → lookup k (keep_others prefix old new) ≡ (
        if contains k new
        then lookup k new
        else if starts_with k prefix
        then none
        else lookup k old)
unfolding keep_others lookup
lookup-keep_others prefix k [] new = ground arith
lookup-keep_others prefix k ((j, v) ∷ old) new = elim (Bool-cases (starts_with j prefix)) [
  | inl e ↦ rw e (ground (arith, eq_iff j k, lookup-keep_others prefix k old new))
  | inr e ↦ rw e (
      ground (
        arith,
        eq_iff j k,
        lookup-emplace j k v new,
        lookup-keep_others prefix k old (emplace j v new),
      ))
]

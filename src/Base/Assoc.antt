-- ===== src/Base/Assoc.antt =====
-- A dictionary with text keys: `std::unordered_map<std::string, V>`, as a list of its entries. A key
-- is listed once in every table that the operations below build.
use mathlib.Core.Path.{◌≡◌, refl}
use mathlib.Core.Bool.{Bool, false, ◌||◌}
use mathlib.Core.Option.{Option, none, some}
use mathlib.Core.List.{List, [], ◌∷◌}
use native.Mathlib.Omega.{arith}
use time_series_engine.Base.Tests.{if◌then◌else◌, is_some}
use time_series_engine.Base.Text.{String, str_eq, eq_iff}

-- `seen.find(id) != seen.end()`, of an `std::unordered_set<std::string>`.
unfoldable pub has_id : String → List String → Bool
has_id k [] = false
has_id k (j ∷ js) = str_eq j k || has_id k js

abbrev pub Table {ℓ} : Type ℓ → Type ℓ
Table V = List (String × V)

module _ {ℓ} {V : Type ℓ} where
  -- `find`
  unfoldable pub lookup : String → Table V → Option V
  lookup k [] = none
  lookup k ((j, v) ∷ m) = if str_eq j k then some v else lookup k m

  -- `m[key] = value`
  unfoldable pub insert : String → V → Table V → Table V
  insert key value [] = (key, value) ∷ []
  insert key value ((other, old) ∷ table) =
      if str_eq other key then (key, value) ∷ table else (other, old) ∷ insert key value table

  -- `erase(key)`
  unfoldable pub erase : String → Table V → Table V
  erase key [] = []
  erase key ((other, old) ∷ table) =
      if str_eq other key then erase key table else (other, old) ∷ erase key table

  abbrev pub contains : String → Table V → Bool
  contains key table = is_some (lookup key table)

  -- `emplace(key, value)`: an entry that is there is kept.
  unfoldable pub emplace : String → V → Table V → Table V
  emplace key value table = if contains key table then table else insert key value table

  pub lookup-insert :
      (key asked : String) (value : V) (table : Table V)
      → lookup asked (insert key value table)
        ≡ (if str_eq key asked then some value else lookup asked table)
  unfolding insert lookup
  lookup-insert key asked value ((other, old) ∷ table) =
      let rest = lookup-insert key asked value table in
      ground (arith, rest, eq_iff other key, eq_iff other asked, eq_iff key asked)
  lookup-insert key asked value [] = refl

  pub lookup-erase :
      (key asked : String) (table : Table V)
      → lookup asked (erase key table) ≡ (if str_eq key asked then none else lookup asked table)
  unfolding erase lookup
  lookup-erase key asked ((other, old) ∷ table) =
      let rest = lookup-erase key asked table in
      ground (arith, rest, eq_iff other key, eq_iff other asked, eq_iff key asked)
  lookup-erase key asked [] = ground arith

  pub lookup-emplace :
      (k j : String) (v : V) (m : Table V)
      → lookup j (emplace k v m)
        ≡ (if contains k m then lookup j m else if str_eq k j then some v else lookup j m)
  unfolding emplace
  lookup-emplace k j v m = ground (arith, lookup-insert k j v m)

-- ===== src/Tests/Registry.antt =====
-- The registry's theorems at one project with one sequence.
use time_series_engine.Base.{◌≡◌, ◌≢◌, refl, none, some, [], ◌∷◌}
use time_series_engine.Operation
use time_series_engine.Types.{OperationCode}
use time_series_engine.Registry.{snapshot_project, keep_others, scoped_key, external_key}
use time_series_engine.Registry.Keys.{IsPlain}
use time_series_engine.Base.Assoc.{lookup, has_id, insert, erase}
use time_series_engine.Base.{ap, eq_iff}
use Prim.Native.Char
use time_series_engine.Registry.Instances.{
  replace_instance_configs, upsert_instance_configs, tables_of, stored, add_instance,
}
use time_series_engine.Registry.Lookups.{find_instance, resolve_sequence_id}
use time_series_engine.Registry.Index.{IsIndexed}
use time_series_engine.Registry.Snapshot.{find_instance-replace, replace-other_projects}
use time_series_engine.Registry.Agreement.{
  replace, upsert, run, apply, apply-IsIndexed, resolve-find,
}
use time_series_engine.Registry.Incremental.{find_instance-upsert}
use time_series_engine.Tests.Data.{empty_registry, snapshot, temperature}

accepted_code : (replace_instance_configs empty_registry snapshot).1.code ≡ OperationCode.ok
unfolding replace_instance_configs add_instance lookup Operation.ok
accepted_code = refl

find_instance-replace_example :
    find_instance (replace_instance_configs empty_registry snapshot).0 "a" "s1"
    ≡ some (stored "a" temperature)
unfolding snapshot_project
find_instance-replace_example = find_instance-replace empty_registry snapshot "s1" accepted_code

a-IsPlain : IsPlain "a"
a-IsPlain = ((λ e. absurd (cc (ap Char.code e))), tt)

b-IsPlain : IsPlain "b"
b-IsPlain = ((λ e. absurd (cc (ap Char.code e))), tt)

b-other : "b" ≢ snapshot_project "a"
unfolding snapshot_project
b-other = λ e. absurd (cc ((eq_iff "b" "a").1 e))

replace-other_projects_example :
    let r' = (replace_instance_configs empty_registry snapshot).0 in
    (find_instance r' "b" "s1" ≡ none) × (resolve_sequence_id r' "b" "plc" "t" ≡ none)
unfolding find_instance resolve_sequence_id snapshot_project lookup
replace-other_projects_example =
    replace-other_projects empty_registry snapshot "b" "s1" "plc" "t" a-IsPlain b-IsPlain b-other

upserted_code : (upsert_instance_configs empty_registry snapshot).1.code ≡ OperationCode.ok
unfolding upsert_instance_configs has_id lookup Operation.ok
upserted_code = refl

find_instance-upsert_example :
    find_instance (upsert_instance_configs empty_registry snapshot).0 "a" "s1"
    ≡ some (stored "a" temperature)
unfolding snapshot_project
find_instance-upsert_example = find_instance-upsert empty_registry snapshot "s1" upserted_code

empty-IsIndexed : IsIndexed (tables_of empty_registry)
unfolding lookup
empty-IsIndexed = λ k c found. absurd (cc found)

apply-IsIndexed_example : IsIndexed (tables_of (apply (upsert snapshot) empty_registry))
unfolding snapshot_project
apply-IsIndexed_example = apply-IsIndexed (upsert snapshot) empty_registry a-IsPlain empty-IsIndexed

found_there :
    find_instance (run (replace snapshot ∷ upsert snapshot ∷ []) empty_registry) "a" "s1"
    ≡ some (stored "a" temperature)
unfolding find_instance replace_instance_configs upsert_instance_configs lookup has_id add_instance
    keep_others insert scoped_key external_key erase
found_there = refl

resolve-find_example :
    resolve_sequence_id (run (replace snapshot ∷ upsert snapshot ∷ []) empty_registry) "a" "plc" "t"
    ≡ some "s1"
unfolding snapshot_project
resolve-find_example =
    resolve-find (replace snapshot ∷ upsert snapshot ∷ []) empty_registry "a" "s1"
      (stored "a" temperature) (a-IsPlain, (a-IsPlain, tt)) a-IsPlain refl found_there

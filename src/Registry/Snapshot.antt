-- ===== src/Registry/Snapshot.antt =====
-- The instance tables of src/runtime_config_registry.cpp as seen by `findInstance`: a replacement
-- is the snapshot, and other projects do not notice it.
use time_series_engine.Base.{
  ◌≡◌, ◌≢◌, ◌∙◌, ap, ◌⊎◌, refl, false, Option, none, some, List, [], ◌∷◌, String, str_eq, eq_iff,
  starts_with, if◌then◌else◌, arith, inl, inr,
}
use time_series_engine.Base.Assoc.{lookup, insert}
use time_series_engine.Base.Checked.{accepted, >>=-eq-accepted, Checked-cases}
use time_series_engine.Operation
use time_series_engine.Types.{
  ProjectId, SequenceId, OperationCode, RuntimeInstanceConfig, RuntimeConfigSnapshot,
}
use time_series_engine.Registry.{
  RuntimeConfigRegistry, scoped_key, external_key, project_prefix, snapshot_project,
}
use time_series_engine.Registry.Keys.{
  IsPlain, scoped_key-prefix, scoped_key-foreign, external_key-prefix, lookup-insert_scoped,
  lookup-insert_foreign, external_key-foreign, lookup-keep_others,
}
use time_series_engine.Registry.Instances.{
  InstanceTables, stored, add_instance, add_instances, merge_tables, replace_instance_configs,
}
use time_series_engine.Registry.Lookups.{find_instance, resolve_sequence_id}

-- The snapshot as a function: the item for a sequence.
abbrev pub find_item : SequenceId → List RuntimeInstanceConfig → Option RuntimeInstanceConfig
find_item s [] = none
find_item s (item ∷ items) = if str_eq item.sequence_id s then some item else find_item s items

abbrev or_else : {A : Type 0} → Option A → Option A → Option A
or_else none o = o
or_else (some a) o = some a

abbrev pub stored_item : ProjectId → Option RuntimeInstanceConfig → Option RuntimeInstanceConfig
stored_item project_id none = none
stored_item project_id (some item) = some (stored project_id item)

-- What one accepted round has found and done.
pub add_instance_step :
    (p : ProjectId) (item : RuntimeInstanceConfig) (t t' : InstanceTables)
    → add_instance p item t ≡ accepted t'
    → (lookup (scoped_key p item.sequence_id) t.instances ≡ none)
      × (lookup (external_key p item.data_source_id item.external_sequence_id) t.external_index
          ≡ none)
      × (t'.instances ≡ insert (scoped_key p item.sequence_id) (stored p item) t.instances)
      × (t'.external_index
          ≡ insert
              (external_key p item.data_source_id item.external_sequence_id)
              item.sequence_id
              t.external_index)
unfolding add_instance
add_instance_step p item t t' h = ground arith

-- After the loop a key of the project finds what the table had, or else what the items say.
lookup-add_instances :
    (p : ProjectId) (s : SequenceId) (items : List RuntimeInstanceConfig) (t t' : InstanceTables)
    → add_instances p items t ≡ accepted t'
    → lookup (scoped_key p s) t'.instances
      ≡ or_else (lookup (scoped_key p s) t.instances) (stored_item p (find_item s items))
unfolding add_instances
lookup-add_instances p s [] t t' h = ground arith
lookup-add_instances p s (item ∷ items) t t' h =
    let (mid, first, later) = >>=-eq-accepted (add_instance p item t) (add_instances p items) h in
    let (fresh, _, ins, _) = add_instance_step p item t mid first in
    let ih = lookup-add_instances p s items mid t' later in
    let law = lookup-insert_scoped p item.sequence_id s (stored p item) t.instances in
    ground (arith, eq_iff item.sequence_id s, ap (lookup (scoped_key p s)) ins)

-- The loop writes keys of its project alone.
pub add_instances-foreign :
    (p k : String) (items : List RuntimeInstanceConfig) (t t' : InstanceTables)
    → starts_with k (project_prefix p) ≡ false
    → add_instances p items t ≡ accepted t'
    → (lookup k t'.instances ≡ lookup k t.instances)
      × (lookup k t'.external_index ≡ lookup k t.external_index)
unfolding add_instances
add_instances-foreign p k [] t t' hk h = ground arith
add_instances-foreign p k (item ∷ items) t t' hk h =
    let (mid, first, later) = >>=-eq-accepted (add_instance p item t) (add_instances p items) h in
    let (_, _, ins, idx) = add_instance_step p item t mid first in
    let (ih, ih') = add_instances-foreign p k items mid t' hk later in
    (
      ih
          ∙ ap (lookup k) ins
          ∙ lookup-insert_foreign _ _ k _ t.instances (scoped_key-prefix p item.sequence_id) hk,
      ih'
          ∙ ap (lookup k) idx
          ∙ lookup-insert_foreign _ _ k _ t.external_index
              (external_key-prefix p item.data_source_id item.external_sequence_id) hk,
    )

module _ {D : Type 0} where
  -- The two ends of a replacement.
  pub replace_cases :
      (r : RuntimeConfigRegistry D) (s : RuntimeConfigSnapshot RuntimeInstanceConfig)
      → let p = snapshot_project s.project_id in
        ((t : InstanceTables) × (add_instances p s.items
              (record { instances = []; external_index = [] })
            ≡ accepted t)
          × ((replace_instance_configs r s).0 ≡ (merge_tables p r t).0)
          × ((replace_instance_configs r s).1.code ≡ OperationCode.ok))
        ⊎ (((replace_instance_configs r s).0 ≡ r)
            × ((replace_instance_configs r s).1.code ≡ OperationCode.invalid_argument))
  unfolding replace_instance_configs Operation.ok Operation.invalid_argument
  replace_cases r s =
      elim (Checked-cases (
        add_instances (snapshot_project s.project_id) s.items
          (record { instances = []; external_index = [] }))) [
            | inl (t, e) ↦ inl (t, e, ground arith, ground arith)
            | inr (m, e) ↦ inr (ground arith, ground arith)
          ]

  -- After a replacement that reports `Ok` the project's instances are the snapshot's: a lookup
  -- finds the item of that sequence, with the project filled in, and nothing where there is none.
  pub find_instance-replace :
      (r : RuntimeConfigRegistry D) (s : RuntimeConfigSnapshot RuntimeInstanceConfig)
      (id : SequenceId)
      → (replace_instance_configs r s).1.code ≡ OperationCode.ok
      → let p = snapshot_project s.project_id in
        find_instance (replace_instance_configs r s).0 p id ≡ stored_item p (find_item id s.items)
  unfolding find_instance merge_tables lookup
  find_instance-replace r s id success = elim (replace_cases r s) [
    | inl (t, e, out, _) ↦
        let p = snapshot_project s.project_id in
        let own =
          lookup-add_instances p id s.items (record { instances = []; external_index = [] }) t e in
        let law =
          lookup-keep_others (project_prefix p) (scoped_key p id) r.instance_configs t.instances in
        let pre = scoped_key-prefix p id in rw out (ground arith)
    | inr (_, bad) ↦ absurd (ground arith)
  ]

  -- A replacement, accepted or not, changes no lookup of another project, by sequence or by
  -- external identifiers, where no project name holds the record separator.
  pub replace-other_projects :
      (r : RuntimeConfigRegistry D) (s : RuntimeConfigSnapshot RuntimeInstanceConfig)
      (q : ProjectId) (id source external : String)
      → IsPlain (snapshot_project s.project_id)
      → IsPlain q
      → q ≢ snapshot_project s.project_id
      → let r' = (replace_instance_configs r s).0 in
        (find_instance r' q id ≡ find_instance r q id)
        × (resolve_sequence_id r' q source external ≡ resolve_sequence_id r q source external)
  unfolding find_instance resolve_sequence_id merge_tables lookup
  replace-other_projects r s q id source external hp hq ne = elim (replace_cases r s) [
    | inl (t, e, out, _) ↦
        let p = snapshot_project s.project_id in
        let k = scoped_key q id in
        let x = external_key q source external in
        let kf = scoped_key-foreign p q id hp hq ne in
        let xf = external_key-foreign p q source external hp hq ne in
        let own =
          add_instances-foreign p k s.items (record { instances = []; external_index = [] }) t kf
            e in
        let own' =
          add_instances-foreign p x s.items (record { instances = []; external_index = [] }) t xf
            e in
        let law = lookup-keep_others (project_prefix p) k r.instance_configs t.instances in
        let law' =
          lookup-keep_others (project_prefix p) x r.external_sequence_index t.external_index in
        rw out (ground arith, ground arith)
    | inr (same, _) ↦ rw same (refl, refl)
  ]

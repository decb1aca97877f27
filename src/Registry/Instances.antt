-- ===== src/Registry/Instances.antt =====
-- `replaceInstanceConfigs` and `upsertInstanceConfigs` of src/runtime_config_registry.cpp.
use time_series_engine.Base.{
  ℕ, Bool, false, not, ◌||◌, Option, none, some, List, [], ◌∷◌, length, ◌<>◌, str_eq, if◌then◌else◌,
}
use time_series_engine.Base.Assoc.{Table, lookup, insert, erase, contains, has_id}
use time_series_engine.Base.Checked.{Checked, accepted, rejected, ◌>>=◌}
use time_series_engine.Types.{
  ProjectId, SequenceId, OperationResult, RuntimeInstanceConfig, RuntimeConfigSnapshot,
}
use time_series_engine.Registry.{
  RuntimeConfigRegistry, scoped_key, external_key, snapshot_project, project_prefix, is_blank,
  valid_series_kind, keep_others, publish,
}

-- The two indexes that an update builds.
pub record InstanceTables : Type 0 where
  pub instances : Table RuntimeInstanceConfig
  pub external_index : Table SequenceId

abbrev pub stored : ProjectId → RuntimeInstanceConfig → RuntimeInstanceConfig
stored project_id item = record item { project_id = project_id }

-- The tests that stand first in both loops.
unfoldable pub check_instance : RuntimeInstanceConfig → Checked (Unit {0})
unfolding valid_series_kind
check_instance item =
    if is_blank item.sequence_id
      || (is_blank item.data_source_id || is_blank item.external_sequence_id)
    then rejected "instance identifiers must not be empty"
    else if not (valid_series_kind item.series_kind)
    then rejected "instance series_kind is invalid"
    else accepted tt

-- One round of the loop in `replaceInstanceConfigs`.
unfoldable pub add_instance :
    ProjectId → RuntimeInstanceConfig → InstanceTables → Checked InstanceTables
unfolding check_instance
add_instance project_id item t = check_instance item >>= λ _.
    if contains (scoped_key project_id item.sequence_id) t.instances
    then rejected ("duplicate sequence_id: " <> item.sequence_id)
    else if contains (external_key project_id item.data_source_id item.external_sequence_id)
        t.external_index
    then rejected "duplicate external sequence identifier"
    else accepted (record {
      instances =
          insert (scoped_key project_id item.sequence_id) (stored project_id item) t.instances;
      external_index =
          insert (external_key project_id item.data_source_id item.external_sequence_id)
            item.sequence_id t.external_index;
    })

unfoldable pub add_instances :
    ProjectId → List RuntimeInstanceConfig → InstanceTables → Checked InstanceTables
add_instances project_id [] t = accepted t
add_instances project_id (item ∷ items) t =
    add_instance project_id item t >>= λ t'. add_instances project_id items t'

-- The old external key of a sequence that is configured anew is dropped, if it is its own.
unfoldable pub drop_old_key : ProjectId → SequenceId → InstanceTables → Table SequenceId
drop_old_key project_id sequence_id t =
    elim (lookup (scoped_key project_id sequence_id) t.instances) [
      | none ↦ t.external_index
      | some existing ↦
          let old_key =
            external_key project_id existing.data_source_id existing.external_sequence_id in
          elim (lookup old_key t.external_index) [
            | none ↦ t.external_index
            | some owner ↦
                if str_eq owner sequence_id
                then erase old_key t.external_index
                else t.external_index
          ]
    ]

-- `conflicting != end && conflicting->second != item.sequence_id`
unfoldable pub conflicts : Option SequenceId → SequenceId → Bool
conflicts none sequence_id = false
conflicts (some owner) sequence_id = not (str_eq owner sequence_id)

-- What a round of `upsertInstanceConfigs` does behind its tests.
unfoldable pub put_instance :
    ProjectId → RuntimeInstanceConfig → InstanceTables → Checked InstanceTables
unfolding drop_old_key conflicts
put_instance project_id item t =
    let new_key = external_key project_id item.data_source_id item.external_sequence_id in
    let external_index = drop_old_key project_id item.sequence_id t in
    if conflicts (lookup new_key external_index) item.sequence_id
    then rejected "duplicate external sequence identifier"
    else accepted (record {
      instances =
          insert (scoped_key project_id item.sequence_id) (stored project_id item) t.instances;
      external_index = insert new_key item.sequence_id external_index;
    })

unfoldable pub put_instances :
    ProjectId
    → List RuntimeInstanceConfig
    → List SequenceId
    → InstanceTables
    → Checked InstanceTables
unfolding check_instance put_instance
put_instances project_id [] seen t = accepted t
put_instances project_id (item ∷ items) seen t = check_instance item >>= λ _.
    (if has_id item.sequence_id seen
      then rejected ("duplicate sequence_id in incremental update: " <> item.sequence_id)
      else put_instance project_id item t)
    >>= λ t'. put_instances project_id items (item.sequence_id ∷ seen) t'

module _ {D : Type 0} where
  abbrev pub tables_of : RuntimeConfigRegistry D → InstanceTables
  tables_of r = record {
    instances = r.instance_configs;
    external_index = r.external_sequence_index;
  }

  -- The publication step of `replaceInstanceConfigs`.
  unfoldable pub merge_tables :
      ProjectId → RuntimeConfigRegistry D → InstanceTables → RuntimeConfigRegistry D × ℕ
  merge_tables project_id r t = (
    record r {
      instance_configs = keep_others (project_prefix project_id) r.instance_configs t.instances;
      external_sequence_index =
          keep_others (project_prefix project_id) r.external_sequence_index t.external_index;
    },
    length t.instances,
  )

  unfoldable pub replace_instance_configs :
      RuntimeConfigRegistry D
      → RuntimeConfigSnapshot RuntimeInstanceConfig
      → RuntimeConfigRegistry D × OperationResult
  unfolding snapshot_project add_instances merge_tables publish
  replace_instance_configs r snapshot =
      let project_id = snapshot_project snapshot.project_id in
      publish r "instance configuration snapshot replaced" (
        add_instances project_id snapshot.items (record { instances = []; external_index = [] })
        >>= λ t. accepted (merge_tables project_id r t))

  unfoldable pub upsert_instance_configs :
      RuntimeConfigRegistry D
      → RuntimeConfigSnapshot RuntimeInstanceConfig
      → RuntimeConfigRegistry D × OperationResult
  unfolding snapshot_project put_instances publish
  upsert_instance_configs r snapshot =
      let project_id = snapshot_project snapshot.project_id in
      publish r "instance configuration incrementally synchronized" (
        put_instances project_id snapshot.items [] (tables_of r) >>= λ t. accepted (
          record r { instance_configs = t.instances; external_sequence_index = t.external_index },
          length snapshot.items,
        ))

-- ===== src/Registry/Constraints.antt =====
-- `replaceConstraints` and `upsertConstraints` of src/runtime_config_registry.cpp.
use time_series_engine.Base.{
  ◌||◌, not, Option, none, some, List, [], ◌∷◌, length, String, ◌<>◌, if◌then◌else◌,
}
use time_series_engine.Base.Assoc.{Table, insert, contains, has_id}
use time_series_engine.Base.Checked.{Checked, accepted, rejected, ◌>>=◌, first_error}
use time_series_engine.Floating.{Floating}
use time_series_engine.Rules.{validate_constraint_rule}
use time_series_engine.Types.{
  ProjectId, SequenceId, OperationResult, RuntimeInstanceConfig, ConstraintRule,
  RuntimeConstraintConfig, RuntimeConfigSnapshot,
}
use time_series_engine.Registry.{
  RuntimeConfigRegistry, scoped_key, snapshot_project, project_prefix, is_blank, keep_others,
  publish,
}

-- One round of the loop over `rule.variable_mapping`.
unfoldable pub check_mapped :
    ProjectId → Table RuntimeInstanceConfig → String × SequenceId → Option String
check_mapped project_id instances (variable, sequence_id) =
    if is_blank variable || not (contains (scoped_key project_id sequence_id) instances)
    then some ("constraint references an unknown sequence: " <> sequence_id)
    else none

module _ {D : Type 0} where
  abbrev pub stored_constraint : ProjectId → RuntimeConstraintConfig D → RuntimeConstraintConfig D
  stored_constraint project_id item = record item {
    rule = record (item.rule) { project_id = project_id };
    project_id = project_id;
  }

module _ {D : Type 0} ⦃f : Floating D⦄ where
  -- The rule's structure and its references.
  unfoldable pub check_constraint :
      ProjectId → Table RuntimeInstanceConfig → ConstraintRule D → Checked (Unit {0})
  unfolding check_mapped first_error
  check_constraint project_id instances rule = validate_constraint_rule rule >>= λ _.
      elim (first_error (check_mapped project_id instances) rule.variable_mapping) [
        | none ↦ accepted tt
        | some error ↦ rejected error
      ]

  unfoldable pub add_constraints :
      ProjectId
      → Table RuntimeInstanceConfig
      → List (RuntimeConstraintConfig D)
      → Table (RuntimeConstraintConfig D)
      → Checked (Table (RuntimeConstraintConfig D))
  unfolding check_constraint
  add_constraints project_id instances [] constraints = accepted constraints
  add_constraints project_id instances (item ∷ items) constraints =
      check_constraint project_id instances item.rule >>= λ _.
      (if contains (scoped_key project_id item.rule.constraint_id) constraints
        then rejected ("duplicate constraint_id: " <> item.rule.constraint_id)
        else accepted (
            insert (scoped_key project_id item.rule.constraint_id)
              (stored_constraint project_id item) constraints))
      >>= λ constraints'. add_constraints project_id instances items constraints'

  unfoldable pub put_constraints :
      ProjectId
      → Table RuntimeInstanceConfig
      → List (RuntimeConstraintConfig D)
      → List String
      → Table (RuntimeConstraintConfig D)
      → Checked (Table (RuntimeConstraintConfig D))
  unfolding check_constraint
  put_constraints project_id instances [] seen constraints = accepted constraints
  put_constraints project_id instances (item ∷ items) seen constraints =
      (if has_id item.rule.constraint_id seen
        then rejected ("duplicate constraint_id in incremental update: " <> item.rule.constraint_id)
        else check_constraint project_id instances item.rule)
      >>= λ _. put_constraints project_id instances items (item.rule.constraint_id ∷ seen) (
          insert (scoped_key project_id item.rule.constraint_id) (stored_constraint project_id item)
            constraints)

  unfoldable pub replace_constraints :
      RuntimeConfigRegistry D
      → RuntimeConfigSnapshot (RuntimeConstraintConfig D)
      → RuntimeConfigRegistry D × OperationResult
  unfolding snapshot_project add_constraints publish
  replace_constraints r snapshot =
      let project_id = snapshot_project snapshot.project_id in
      publish r "constraint configuration snapshot replaced" (
        add_constraints project_id r.instance_configs snapshot.items [] >>= λ constraints.
        accepted (
          record r {
            constraints = keep_others (project_prefix project_id) r.constraints constraints;
          },
          length constraints,
        ))

  unfoldable pub upsert_constraints :
      RuntimeConfigRegistry D
      → RuntimeConfigSnapshot (RuntimeConstraintConfig D)
      → RuntimeConfigRegistry D × OperationResult
  unfolding snapshot_project put_constraints publish
  upsert_constraints r snapshot =
      let project_id = snapshot_project snapshot.project_id in
      publish r "constraint configuration incrementally synchronized" (
        put_constraints project_id r.instance_configs snapshot.items [] r.constraints
        >>= λ constraints. accepted (record r { constraints = constraints }, length snapshot.items))

-- ===== src/Registry/Derived.antt =====
-- Derived series in src/runtime_config_registry.cpp: the checks of a formula, and
-- `upsertDerivedSeriesConfigs`.
use time_series_engine.Base.{
  ◌||◌, not, Bool, true, false, none, some, List, [], ◌∷◌, length, String, ◌<>◌, is_nil, is_empty,
  str_eq, starts_with, if◌then◌else◌,
}
use time_series_engine.Base.Assoc.{Table, lookup, insert, emplace, contains, has_id}
use time_series_engine.Base.Checked.{Checked, accepted, rejected, ◌>>=◌}
use time_series_engine.Floating.{Floating}
use time_series_engine.Types.{
  ProjectId, SequenceId, OperationResult, SeriesKind, RuntimeInstanceConfig, DerivedOperator,
  NodeKind, DerivedExpression, ExpressionPtr, DerivedLinearTerm, DerivedFormula,
  RuntimeDerivedSeriesConfig, RuntimeConfigSnapshot,
}
use time_series_engine.Registry.{
  RuntimeConfigRegistry, scoped_key, snapshot_project, project_prefix, publish,
}

-- `localInstances`: the project's instances by their sequence.
unfoldable pub collect_local :
    String → Table RuntimeInstanceConfig → Table RuntimeInstanceConfig → Table RuntimeInstanceConfig
collect_local prefix [] result = result
collect_local prefix ((key, config) ∷ all) result =
    collect_local prefix all
      (if starts_with key prefix then emplace config.sequence_id config result else result)

unfoldable pub local_instances :
    Table RuntimeInstanceConfig → ProjectId → Table RuntimeInstanceConfig
unfolding collect_local
local_instances all project_id = collect_local (project_prefix project_id) all []

unfoldable pub is_continuous : SeriesKind → Bool
is_continuous SeriesKind.continuous = true
is_continuous _ = false

unfoldable pub continuous_numeric : RuntimeInstanceConfig → Bool
unfolding is_continuous
continuous_numeric config =
    if not (is_continuous config.series_kind)
    then false
    else (str_eq config.data_type "double"
        || str_eq config.data_type "float"
        || str_eq config.data_type "continuous"
        || str_eq config.data_type "int"
        || str_eq config.data_type "int64"
        || str_eq config.data_type "integer")

-- `instances.find(id)` gives a continuous numeric sequence.
unfoldable pub is_numeric_source : Table RuntimeInstanceConfig → SequenceId → Bool
unfolding continuous_numeric
is_numeric_source instances sequence_id = elim (lookup sequence_id instances) [
  | none ↦ false
  | some config ↦ continuous_numeric config
]

unfoldable pub valid_derived_operator : DerivedOperator → Bool
valid_derived_operator DerivedOperator.add = true
valid_derived_operator DerivedOperator.subtract = true
valid_derived_operator DerivedOperator.multiply = true
valid_derived_operator DerivedOperator.divide = true
valid_derived_operator DerivedOperator.unspecified = false

module _ {D : Type 0} where
  unfoldable pub is_null : ExpressionPtr D → Bool
  is_null ExpressionPtr.null = true
  is_null (ExpressionPtr.ptr e) = false

unfoldable mutual
  pub contains_sequence_leaf : {D : Type 0} → DerivedExpression D → Bool
  contains_sequence_leaf (DerivedExpression.node NodeKind.sequence id c op left right) = true
  contains_sequence_leaf (DerivedExpression.node NodeKind.constant id c op left right) = false
  contains_sequence_leaf (DerivedExpression.node NodeKind.binary id c op left right) =
      leaf_below left || leaf_below right

  pub leaf_below : {D : Type 0} → ExpressionPtr D → Bool
  leaf_below ExpressionPtr.null = false
  leaf_below (ExpressionPtr.ptr e) = contains_sequence_leaf e

-- The arguments stand first that the recursion does not change.
unfoldable mutual
  pub validate_derived_expression :
      {D : Type 0}
      → Floating D
      → Table RuntimeInstanceConfig
      → DerivedExpression D
      → Checked (Unit {0})
  validate_derived_expression f instances
        (DerivedExpression.node NodeKind.sequence id c op left right) =
      if is_empty id
      then rejected "derived expression sequence_id must not be empty"
      else if not (is_numeric_source instances id)
      then rejected (
          "derived expression sequence must be registered as a continuous numeric sequence: " <> id)
      else accepted tt
  validate_derived_expression f instances
        (DerivedExpression.node NodeKind.constant id c op left right) =
      if not (f.is_finite c)
      then rejected "derived expression constant must be finite"
      else accepted tt
  validate_derived_expression f instances
        (DerivedExpression.node NodeKind.binary id c op left right) =
      let children = validate_child f instances left >>= λ _. validate_child f instances right in
      if not (valid_derived_operator op) || (is_null left || is_null right)
      then rejected "derived binary expression is incomplete or invalid"
      else children

  -- The call on `*left` or `*right`, which are not null where it is made.
  pub validate_child :
      {D : Type 0} → Floating D → Table RuntimeInstanceConfig → ExpressionPtr D → Checked (Unit {0})
  validate_child f instances ExpressionPtr.null = accepted tt
  validate_child f instances (ExpressionPtr.ptr e) = validate_derived_expression f instances e

module _ {D : Type 0} ⦃f : Floating D⦄ where
  -- The loop over the terms of a linear combination.
  unfoldable pub check_linear_terms :
      Table RuntimeInstanceConfig
      → List (DerivedLinearTerm D)
      → List SequenceId
      → Checked (Unit {0})
  check_linear_terms instances [] seen = accepted tt
  check_linear_terms instances (term ∷ terms) seen =
      let rest = check_linear_terms instances terms (term.sequence_id ∷ seen) in
      if is_empty term.sequence_id || not (f.is_finite term.coefficient)
      then rejected "derived linear term is invalid"
      else if not (is_numeric_source instances term.sequence_id)
      then rejected (
          "derived linear term must reference a registered continuous numeric sequence: "
          <> term.sequence_id)
      else if has_id term.sequence_id seen
      then rejected ("duplicate derived linear term sequence: " <> term.sequence_id)
      else rest

  unfoldable pub check_formula : Table RuntimeInstanceConfig → DerivedFormula D → Checked (Unit {0})
  unfolding check_linear_terms contains_sequence_leaf validate_derived_expression
  check_formula instances (DerivedFormula.linear l) =
      if is_nil l.terms || not (f.is_finite l.bias)
      then rejected "derived linear combination must contain finite terms and bias"
      else check_linear_terms instances l.terms []
  check_formula instances (DerivedFormula.expression e) =
      if not (contains_sequence_leaf e)
      then rejected "derived expression must reference at least one sequence"
      else validate_derived_expression f instances e

  unfoldable pub validate_derived_config :
      RuntimeDerivedSeriesConfig D → Table RuntimeInstanceConfig → Checked (Unit {0})
  unfolding check_formula
  validate_derived_config item instances =
      if is_empty item.derived_sequence_id
      then rejected "derived_sequence_id must not be empty"
      else if contains item.derived_sequence_id instances
      then rejected
          ("derived sequence_id conflicts with an instance sequence: " <> item.derived_sequence_id)
      else check_formula instances item.formula

  abbrev pub stored_derived :
      ProjectId → RuntimeDerivedSeriesConfig D → RuntimeDerivedSeriesConfig D
  stored_derived project_id item = record item { project_id = project_id }

  unfoldable pub put_derived :
      ProjectId
      → Table RuntimeInstanceConfig
      → List (RuntimeDerivedSeriesConfig D)
      → List SequenceId
      → Table (RuntimeDerivedSeriesConfig D)
      → Checked (Table (RuntimeDerivedSeriesConfig D))
  unfolding validate_derived_config local_instances
  put_derived project_id all [] seen derived = accepted derived
  put_derived project_id all (item ∷ items) seen derived =
      (if has_id item.derived_sequence_id seen
        then rejected
            ("duplicate derived_sequence_id in incremental update: " <> item.derived_sequence_id)
        else validate_derived_config (stored_derived project_id item)
            (local_instances all project_id))
      >>= λ _. put_derived project_id all items (item.derived_sequence_id ∷ seen) (
          insert (scoped_key project_id item.derived_sequence_id) (stored_derived project_id item)
            derived)

  unfoldable pub upsert_derived_series_configs :
      RuntimeConfigRegistry D
      → RuntimeConfigSnapshot (RuntimeDerivedSeriesConfig D)
      → RuntimeConfigRegistry D × OperationResult
  unfolding snapshot_project put_derived publish
  upsert_derived_series_configs r snapshot =
      let project_id = snapshot_project snapshot.project_id in
      publish r "derived series configuration incrementally synchronized" (
        put_derived project_id r.instance_configs snapshot.items [] r.derived_series >>= λ derived.
        accepted (record r { derived_series = derived }, length snapshot.items))

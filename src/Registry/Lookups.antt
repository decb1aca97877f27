-- ===== src/Registry/Lookups.antt =====
-- The queries of src/runtime_config_registry.cpp.
use Prim.Native.String.{compare}
use text.Mathlib.Text.{is_le}
use time_series_engine.Base.{
  ◌&&◌, Bool, Option, none, some, List, [], ◌∷◌, ◌++◌, String, starts_with, if◌then◌else◌,
}
use time_series_engine.Base.Assoc.{Table, lookup}
use time_series_engine.Types.{
  ProjectId, SequenceId, RuntimeInstanceConfig, ConstraintRule, RuntimeConstraintConfig,
  RuntimeRelationConfig, RuntimeDerivedSeriesConfig,
}
use time_series_engine.Registry.{RuntimeConfigRegistry, scoped_key, external_key, project_prefix}

-- `!(b < a)` on texts.
abbrev pub le_text : String → String → Bool
le_text a b = is_le (compare a b)

-- `std::sort` by a text, each of which stands once.
module _ {A : Type 0} (key : A → String) where
  unfoldable pub insert_sorted : A → List A → List A
  insert_sorted a [] = a ∷ []
  insert_sorted a (b ∷ bs) = if le_text (key a) (key b) then a ∷ b ∷ bs else b ∷ insert_sorted a bs

  unfoldable pub sort_by : List A → List A
  unfolding insert_sorted
  sort_by [] = []
  sort_by (a ∷ as_) = insert_sorted a (sort_by as_)

pub record ConstraintLookupResult (D : Type 0) : Type 0 where
  pub enabled_rules : List (ConstraintRule D)
  pub missing_ids : List String
  pub disabled_ids : List String

module _ {D : Type 0} where
  unfoldable pub find_instance :
      RuntimeConfigRegistry D → ProjectId → SequenceId → Option RuntimeInstanceConfig
  find_instance r project_id sequence_id =
      lookup (scoped_key project_id sequence_id) r.instance_configs

  unfoldable pub resolve_sequence_id :
      RuntimeConfigRegistry D → ProjectId → String → String → Option SequenceId
  resolve_sequence_id r project_id data_source_id external_sequence_id =
      lookup (external_key project_id data_source_id external_sequence_id) r.external_sequence_index

  unfoldable pub find_relation :
      RuntimeConfigRegistry D → ProjectId → String → Option (RuntimeRelationConfig D)
  find_relation r project_id relation_id = lookup (scoped_key project_id relation_id) r.relations

  -- The loops that collect the entries of one project.
  unfoldable pub project_derived :
      String → Table (RuntimeDerivedSeriesConfig D) → List (RuntimeDerivedSeriesConfig D)
  project_derived prefix [] = []
  project_derived prefix ((key, config) ∷ table) =
      if starts_with key prefix
      then config ∷ project_derived prefix table
      else project_derived prefix table

  unfoldable pub all_derived_series :
      RuntimeConfigRegistry D → ProjectId → List (RuntimeDerivedSeriesConfig D)
  unfolding project_derived sort_by
  all_derived_series r project_id =
      sort_by (λ (c : RuntimeDerivedSeriesConfig D). c.derived_sequence_id)
        (project_derived (project_prefix project_id) r.derived_series)

  -- One round of the loop in `lookupConstraints`.
  unfoldable pub classify :
      Option (RuntimeConstraintConfig D)
      → String
      → ConstraintLookupResult D
      → ConstraintLookupResult D
  classify none constraint_id result = record result {
    missing_ids = result.missing_ids ++ constraint_id ∷ [];
  }
  classify (some config) constraint_id result =
      if config.enabled
      then record result { enabled_rules = result.enabled_rules ++ config.rule ∷ [] }
      else record result { disabled_ids = result.disabled_ids ++ constraint_id ∷ [] }

  unfoldable pub lookup_loop :
      RuntimeConfigRegistry D
      → ProjectId
      → List String
      → ConstraintLookupResult D
      → ConstraintLookupResult D
  unfolding classify
  lookup_loop r project_id [] result = result
  lookup_loop r project_id (constraint_id ∷ ids) result =
      lookup_loop r project_id ids
        (classify (lookup (scoped_key project_id constraint_id) r.constraints) constraint_id result)

  unfoldable pub lookup_constraints :
      RuntimeConfigRegistry D → ProjectId → List String → ConstraintLookupResult D
  unfolding lookup_loop
  lookup_constraints r project_id constraint_ids =
      lookup_loop r project_id constraint_ids
        (record { enabled_rules = []; missing_ids = []; disabled_ids = [] })

  unfoldable pub enabled_constraints :
      RuntimeConfigRegistry D → ProjectId → List String → List (ConstraintRule D)
  unfolding lookup_constraints
  enabled_constraints r project_id constraint_ids =
      (lookup_constraints r project_id constraint_ids).enabled_rules

  unfoldable pub project_enabled :
      String → Table (RuntimeConstraintConfig D) → List (ConstraintRule D)
  project_enabled prefix [] = []
  project_enabled prefix ((key, config) ∷ table) =
      if starts_with key prefix && config.enabled
      then config.rule ∷ project_enabled prefix table
      else project_enabled prefix table

  unfoldable pub all_enabled_constraints :
      RuntimeConfigRegistry D → ProjectId → List (ConstraintRule D)
  unfolding project_enabled sort_by
  all_enabled_constraints r project_id =
      sort_by (λ (rule : ConstraintRule D). rule.constraint_id)
        (project_enabled (project_prefix project_id) r.constraints)

-- ===== src/Registry/Relations.antt =====
-- `replaceRelations` and `upsertRelations` of src/runtime_config_registry.cpp.
use time_series_engine.Base.{
  ◌||◌, not, Bool, false, List, [], ◌∷◌, length, String, ◌<>◌, is_nil, ltb_ℤ, if◌then◌else◌,
}
use time_series_engine.Base.Assoc.{Table, insert, contains, has_id}
use time_series_engine.Base.Checked.{Checked, accepted, rejected, ◌>>=◌}
use time_series_engine.Floating.{Floating}
use time_series_engine.Types.{
  ProjectId, SequenceId, OperationResult, RelationLagSpec, RuntimeRelationSource,
  RuntimeRelationConfig, RuntimeConfigSnapshot,
}
use time_series_engine.Registry.{
  RuntimeConfigRegistry, scoped_key, snapshot_project, project_prefix, is_blank, keep_others,
  publish,
}

-- `range->min > range->max`
unfoldable pub is_inverted : RelationLagSpec → Bool
is_inverted RelationLagSpec.no_lag = false
is_inverted (RelationLagSpec.fixed_lag lag) = false
is_inverted (RelationLagSpec.lag_range least most) = ltb_ℤ most least

module _ {D : Type 0} ⦃f : Floating D⦄ where
  -- The loop over the sources, with the sources seen so far.
  unfoldable pub check_sources :
      List (RuntimeRelationSource D) → List SequenceId → Checked (Unit {0})
  unfolding is_inverted
  check_sources [] seen = accepted tt
  check_sources (source ∷ sources) seen =
      let rest = check_sources sources (source.source_sequence_id ∷ seen) in
      if is_blank source.source_sequence_id || not (f.is_finite source.weight)
      then rejected "relation source sequence and weight must be valid"
      else if has_id source.source_sequence_id seen
      then rejected ("duplicate relation source sequence: " <> source.source_sequence_id)
      else if is_inverted source.lag
      then rejected "relation source lag range is invalid"
      else rest

  unfoldable pub check_relation_ids : RuntimeRelationConfig D → Checked (Unit {0})
  check_relation_ids item =
      if is_blank item.relation_id || (is_blank item.target_sequence_id || is_nil item.sources)
      then rejected
          "relation_id and target_sequence_id must not be empty, and relation sources must not be empty"
      else accepted tt

  -- The tests of the confidence and the sources.
  unfoldable pub check_relation_body : RuntimeRelationConfig D → Checked (Unit {0})
  unfolding check_sources
  check_relation_body item =
      if not (f.is_finite item.confidence)
      then rejected "relation confidence is invalid"
      else check_sources item.sources []

  abbrev pub stored_relation : ProjectId → RuntimeRelationConfig D → RuntimeRelationConfig D
  stored_relation project_id item = record item { project_id = project_id }

  unfoldable pub add_relations :
      ProjectId
      → List (RuntimeRelationConfig D)
      → Table (RuntimeRelationConfig D)
      → Checked (Table (RuntimeRelationConfig D))
  unfolding check_relation_ids check_relation_body
  add_relations project_id [] relations = accepted relations
  add_relations project_id (item ∷ items) relations = check_relation_ids item >>= λ _.
      check_relation_body item >>= λ _.
      (if contains (scoped_key project_id item.relation_id) relations
        then rejected ("duplicate relation_id: " <> item.relation_id)
        else accepted (
            insert (scoped_key project_id item.relation_id) (stored_relation project_id item)
              relations))
      >>= λ relations'. add_relations project_id items relations'

  unfoldable pub put_relations :
      ProjectId
      → List (RuntimeRelationConfig D)
      → List String
      → Table (RuntimeRelationConfig D)
      → Checked (Table (RuntimeRelationConfig D))
  unfolding check_relation_ids check_relation_body
  put_relations project_id [] seen relations = accepted relations
  put_relations project_id (item ∷ items) seen relations = check_relation_ids item >>= λ _.
      (if has_id item.relation_id seen
        then rejected ("duplicate relation_id in incremental update: " <> item.relation_id)
        else check_relation_body item)
      >>= λ _. put_relations project_id items (item.relation_id ∷ seen) (
          insert (scoped_key project_id item.relation_id) (stored_relation project_id item)
            relations)

  unfoldable pub replace_relations :
      RuntimeConfigRegistry D
      → RuntimeConfigSnapshot (RuntimeRelationConfig D)
      → RuntimeConfigRegistry D × OperationResult
  unfolding snapshot_project add_relations publish
  replace_relations r snapshot =
      let project_id = snapshot_project snapshot.project_id in
      publish r "relation configuration snapshot replaced" (
        add_relations project_id snapshot.items [] >>= λ relations. accepted (
          record r { relations = keep_others (project_prefix project_id) r.relations relations },
          length relations,
        ))

  unfoldable pub upsert_relations :
      RuntimeConfigRegistry D
      → RuntimeConfigSnapshot (RuntimeRelationConfig D)
      → RuntimeConfigRegistry D × OperationResult
  unfolding snapshot_project put_relations publish
  upsert_relations r snapshot =
      let project_id = snapshot_project snapshot.project_id in
      publish r "relation configuration incrementally synchronized" (
        put_relations project_id snapshot.items [] r.relations >>= λ relations.
        accepted (record r { relations = relations }, length snapshot.items))

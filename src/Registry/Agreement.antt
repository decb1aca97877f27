-- ===== src/Registry/Agreement.antt =====
-- The updates of src/runtime_config_registry.cpp keep the two instance indexes in agreement, and so
-- `resolveSequenceId` undoes `findInstance`.
use time_series_engine.Base.{
  ◌≡◌, ◌≢◌, ◌∙◌, sym, ap, subst, All, ◌⊎◌, false, some, List, [], ◌∷◌, String, starts_with, arith,
  inl, inr, Option-cases,
}
use time_series_engine.Base.Assoc.{lookup, has_id}
use time_series_engine.Base.Checked.{accepted, >>=-eq-accepted, Checked-cases}
use time_series_engine.Operation
use time_series_engine.Types.{
  ProjectId, SequenceId, OperationCode, RuntimeInstanceConfig, RuntimeConfigSnapshot,
}
use time_series_engine.Registry.{
  RuntimeConfigRegistry, scoped_key, external_key, project_prefix, snapshot_project,
}
use time_series_engine.Registry.Keys.{
  IsPlain, scoped_key_unique, scoped_key-prefix, external_key-foreign, lookup-keep_others,
}
use time_series_engine.Registry.Instances.{
  InstanceTables, add_instance, add_instances, put_instance, put_instances, tables_of, merge_tables,
  replace_instance_configs, upsert_instance_configs,
}
use time_series_engine.Registry.Snapshot.{add_instances-foreign, replace_cases}
use time_series_engine.Registry.Index.{IsIndexed, add_instance-IsIndexed, put_instance-IsIndexed}
use time_series_engine.Registry.Lookups.{find_instance, resolve_sequence_id}

add_instances-IsIndexed :
    (p : ProjectId) (items : List RuntimeInstanceConfig) (t t' : InstanceTables)
    → IsPlain p
    → IsIndexed t
    → add_instances p items t ≡ accepted t'
    → IsIndexed t'
unfolding add_instances
add_instances-IsIndexed p [] t t' hp ok h = let same : t ≡ t' = cc h in subst IsIndexed same ok
add_instances-IsIndexed p (item ∷ items) t t' hp ok h =
    let (mid, first, later) = >>=-eq-accepted (add_instance p item t) (add_instances p items) h in
    add_instances-IsIndexed p items mid t' hp (add_instance-IsIndexed p item t mid hp ok first)
      later

-- Of an accepted round of the incremental loop.
pub put_instances_step :
    (p : ProjectId) (item : RuntimeInstanceConfig) (items : List RuntimeInstanceConfig)
    (seen : List SequenceId) (t t' : InstanceTables)
    → put_instances p (item ∷ items) seen t ≡ accepted t'
    → (mid : InstanceTables) × (put_instance p item t ≡ accepted mid)
      × (put_instances p items (item.sequence_id ∷ seen) mid ≡ accepted t')
      × (has_id item.sequence_id seen ≡ false)
unfolding put_instances
put_instances_step p item items seen t t' h = elim (Checked-cases (put_instance p item t)) [
  | inl (mid, e) ↦ (mid, e, ground arith, ground arith)
  | inr (m, e) ↦ absurd (ground arith)
]

put_instances-IsIndexed :
    (p : ProjectId) (items : List RuntimeInstanceConfig) (seen : List SequenceId)
    (t t' : InstanceTables)
    → IsPlain p
    → IsIndexed t
    → put_instances p items seen t ≡ accepted t'
    → IsIndexed t'
unfolding put_instances
put_instances-IsIndexed p [] seen t t' hp ok h = let same : t ≡ t' = cc h in subst IsIndexed same ok
put_instances-IsIndexed p (item ∷ items) seen t t' hp ok h =
    let (mid, first, later, _) = put_instances_step p item items seen t t' h in
    put_instances-IsIndexed p items (item.sequence_id ∷ seen) mid t' hp
      (put_instance-IsIndexed p item t mid hp ok first) later

not_in_empty : {V : Type 0} (k : String) (c : V) → lookup k [] ≢ some c
unfolding lookup
not_in_empty k c e = cc

module _ {D : Type 0} where
  merge_tables-IsIndexed :
      (p : ProjectId) (r : RuntimeConfigRegistry D) (items : List RuntimeInstanceConfig)
      (t : InstanceTables)
      → IsPlain p
      → add_instances p items (record { instances = []; external_index = [] }) ≡ accepted t
      → IsIndexed (tables_of r)
      → IsIndexed t
      → IsIndexed (tables_of (merge_tables p r t).0)
  unfolding merge_tables lookup
  merge_tables-IsIndexed p r items t hp built old new k c found =
      elim (Option-cases (lookup k t.instances)) [
        | inl none_new ↦
            let foreign : starts_with k (project_prefix p) ≡ false =
              ground
                (arith, lookup-keep_others (project_prefix p) k r.instance_configs t.instances) in
            let entry = old k c (
              ground
                (arith, lookup-keep_others (project_prefix p) k r.instance_configs t.instances)) in
            let x = external_key c.project_id c.data_source_id c.external_sequence_id in
            let other : c.project_id ≢ p =
              λ e. cc (foreign, scoped_key-prefix c.project_id c.sequence_id, e, entry.keyed) in
            let xf =
              external_key-foreign p c.project_id c.data_source_id c.external_sequence_id hp
                entry.plain other in
            let untouched =
              add_instances-foreign p x items (record { instances = []; external_index = [] }) t xf
                built in
            record {
              keyed = entry.keyed;
              plain = entry.plain;
              indexed = ground (
                arith,
                entry.indexed,
                lookup-keep_others (project_prefix p) x r.external_sequence_index t.external_index,
              );
            }
        | inr (d, is_new) ↦
            let same : d ≡ c =
              ground
                (arith, lookup-keep_others (project_prefix p) k r.instance_configs t.instances) in
            let entry = new k c (is_new ∙ ap some same) in
            let x = external_key c.project_id c.data_source_id c.external_sequence_id in
            record {
              keyed = entry.keyed;
              plain = entry.plain;
              indexed = ground (
                arith,
                entry.indexed,
                lookup-keep_others (project_prefix p) x r.external_sequence_index t.external_index,
              );
            }
      ]

  -- The two ends of an incremental update.
  pub upsert_cases :
      (r : RuntimeConfigRegistry D) (s : RuntimeConfigSnapshot RuntimeInstanceConfig)
      → ((t : InstanceTables) × (put_instances
              (snapshot_project s.project_id)
              s.items
              []
              (tables_of r)
            ≡ accepted t)
          × (tables_of (upsert_instance_configs r s).0 ≡ t)
          × ((upsert_instance_configs r s).1.code ≡ OperationCode.ok))
        ⊎ (((upsert_instance_configs r s).0 ≡ r)
            × ((upsert_instance_configs r s).1.code ≡ OperationCode.invalid_argument))
  unfolding upsert_instance_configs Operation.ok Operation.invalid_argument
  upsert_cases r s =
      elim (Checked-cases
        (put_instances (snapshot_project s.project_id) s.items [] (tables_of r))) [
          | inl (t, e) ↦ inl (t, e, ground arith, ground arith)
          | inr (m, e) ↦ inr (ground arith, ground arith)
        ]

-- An update of the instance configuration.
pub data Update : Type 0 where
  replace upsert : RuntimeConfigSnapshot RuntimeInstanceConfig → Update

abbrev pub project_of : Update → ProjectId
project_of (replace s) = snapshot_project s.project_id
project_of (upsert s) = snapshot_project s.project_id

module _ {D : Type 0} where
  abbrev pub apply : Update → RuntimeConfigRegistry D → RuntimeConfigRegistry D
  apply (replace s) r = (replace_instance_configs r s).0
  apply (upsert s) r = (upsert_instance_configs r s).0

  abbrev pub run : List Update → RuntimeConfigRegistry D → RuntimeConfigRegistry D
  run [] r = r
  run (u ∷ us) r = run us (apply u r)

  -- Whether an update is accepted or not, the indexes stay in agreement.
  pub apply-IsIndexed :
      (u : Update) (r : RuntimeConfigRegistry D)
      → IsPlain (project_of u)
      → IsIndexed (tables_of r)
      → IsIndexed (tables_of (apply u r))
  apply-IsIndexed (replace s) r hp ok = elim (replace_cases r s) [
    | inl (t, e, out, _) ↦
        let p = snapshot_project s.project_id in
        let built =
          add_instances-IsIndexed p s.items (record { instances = []; external_index = [] }) t hp
            (λ k c found. absurd (not_in_empty k c found)) e in
        subst (λ x. IsIndexed (tables_of x)) (sym out)
          (merge_tables-IsIndexed p r s.items t hp e ok built)
    | inr (same, _) ↦ subst (λ x. IsIndexed (tables_of x)) (sym same) ok
  ]
  apply-IsIndexed (upsert s) r hp ok = elim (upsert_cases r s) [
    | inl (t, e, out, _) ↦
        subst IsIndexed (sym out) (
          put_instances-IsIndexed (snapshot_project s.project_id) s.items [] (tables_of r) t hp ok
            e)
    | inr (same, _) ↦ subst (λ x. IsIndexed (tables_of x)) (sym same) ok
  ]

  run-IsIndexed :
      (us : List Update) (r : RuntimeConfigRegistry D)
      → All (λ u. IsPlain (project_of u)) us
      → IsIndexed (tables_of r)
      → IsIndexed (tables_of (run us r))
  run-IsIndexed [] r hp ok = ok
  run-IsIndexed (u ∷ us) r hp ok = run-IsIndexed us (apply u r) hp.1 (apply-IsIndexed u r hp.0 ok)

  -- After any sequence of replacements and incremental updates, accepted or refused, of projects
  -- whose names hold no record separator, on a registry without instances: an instance that
  -- `findInstance` gives is the one that `resolveSequenceId` gives for its external identifiers.
  pub resolve-find :
      (us : List Update) (r : RuntimeConfigRegistry D) (p : ProjectId) (id : SequenceId)
      (c : RuntimeInstanceConfig)
      → All (λ u. IsPlain (project_of u)) us
      → IsPlain p
      → r.instance_configs ≡ []
      → find_instance (run us r) p id ≡ some c
      → resolve_sequence_id (run us r) p c.data_source_id c.external_sequence_id ≡ some id
  unfolding find_instance resolve_sequence_id
  resolve-find us r p id c plain hp start found =
      let entry =
        run-IsIndexed us r plain
          (λ k d there. absurd (not_in_empty k d (ap (lookup k) (sym start) ∙ there)))
          (scoped_key p id) c found in
      let (same, own) =
        scoped_key_unique p c.project_id id c.sequence_id hp entry.plain entry.keyed in
      ground (arith, entry.indexed)

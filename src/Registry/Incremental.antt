-- ===== src/Registry/Incremental.antt =====
-- `upsertInstanceConfigs` of src/runtime_config_registry.cpp as seen by `findInstance`.
use time_series_engine.Base.{
  ◌≡◌, ◌∙◌, ap, refl, true, Option, none, some, List, [], ◌∷◌, str_eq, eq_iff, arith, inl, inr,
  Bool-cases,
}
use time_series_engine.Base.Assoc.{lookup, has_id}
use time_series_engine.Base.Checked.{accepted}
use time_series_engine.Types.{
  ProjectId, SequenceId, OperationCode, RuntimeInstanceConfig, RuntimeConfigSnapshot,
}
use time_series_engine.Registry.{RuntimeConfigRegistry, scoped_key, snapshot_project}
use time_series_engine.Registry.Keys.{lookup-insert_scoped}
use time_series_engine.Registry.Instances.{
  InstanceTables, stored, put_instances, tables_of, upsert_instance_configs,
}
use time_series_engine.Registry.Snapshot.{find_item, stored_item}
use time_series_engine.Registry.Index.{put_instance_step}
use time_series_engine.Registry.Agreement.{put_instances_step, upsert_cases}
use time_series_engine.Registry.Lookups.{find_instance}

-- The item of the request, or else what was there.
abbrev pub overlay :
    Option RuntimeInstanceConfig → Option RuntimeInstanceConfig → Option RuntimeInstanceConfig
overlay none old = old
overlay (some item) old = some item

has_id-cons :
    (s j : SequenceId) (js : List SequenceId) → has_id s js ≡ true → has_id s (j ∷ js) ≡ true
unfolding has_id
has_id-cons s j js e = ground arith

-- A sequence that was seen stands in no later item of an accepted request.
seen-find_item :
    (p : ProjectId) (s : SequenceId) (items : List RuntimeInstanceConfig) (seen : List SequenceId)
    (t t' : InstanceTables)
    → has_id s seen ≡ true
    → put_instances p items seen t ≡ accepted t'
    → find_item s items ≡ none
seen-find_item p s [] seen t t' h run = refl
seen-find_item p s (item ∷ items) seen t t' h run =
    let (mid, _, later, fresh) = put_instances_step p item items seen t t' run in
    let ih =
      seen-find_item p s items (item.sequence_id ∷ seen) mid t'
        (has_id-cons s item.sequence_id seen h) later in
    elim (Bool-cases (str_eq item.sequence_id s)) [
      | inl e ↦ absurd (cc (h, fresh, (eq_iff item.sequence_id s).0 e))
      | inr e ↦ rw e ih
    ]

lookup-put_instances :
    (p : ProjectId) (s : SequenceId) (items : List RuntimeInstanceConfig) (seen : List SequenceId)
    (t t' : InstanceTables)
    → put_instances p items seen t ≡ accepted t'
    → lookup (scoped_key p s) t'.instances
      ≡ overlay (stored_item p (find_item s items)) (lookup (scoped_key p s) t.instances)
unfolding put_instances has_id
lookup-put_instances p s [] seen t t' h = ground arith
lookup-put_instances p s (item ∷ items) seen t t' h =
    let (mid, first, later, fresh) = put_instances_step p item items seen t t' h in
    let (_, ins, _) = put_instance_step p item t mid first in
    let ih = lookup-put_instances p s items (item.sequence_id ∷ seen) mid t' later in
    let law = lookup-insert_scoped p item.sequence_id s (stored p item) t.instances in
    elim (Bool-cases (str_eq item.sequence_id s)) [
      | inl e ↦
          let gone =
            seen-find_item p s items (item.sequence_id ∷ seen) mid t' (ground arith) later in
          ground (arith, ap (lookup (scoped_key p s)) ins)
      | inr e ↦ ground (arith, ap (lookup (scoped_key p s)) ins)
    ]

module _ {D : Type 0} where
  -- After an incremental update that reports `Ok`, a lookup in the project finds the item of the
  -- request, with the project filled in, and otherwise what it found before.
  pub find_instance-upsert :
      (r : RuntimeConfigRegistry D) (s : RuntimeConfigSnapshot RuntimeInstanceConfig)
      (id : SequenceId)
      → (upsert_instance_configs r s).1.code ≡ OperationCode.ok
      → let p = snapshot_project s.project_id in
        find_instance (upsert_instance_configs r s).0 p id
        ≡ overlay (stored_item p (find_item id s.items)) (find_instance r p id)
  unfolding find_instance
  find_instance-upsert r s id success = elim (upsert_cases r s) [
    | inl (t, e, out, _) ↦
        let p = snapshot_project s.project_id in
        ap (λ (x : InstanceTables). lookup (scoped_key p id) x.instances) out
        ∙ lookup-put_instances p id s.items [] (tables_of r) t e
    | inr (_, bad) ↦ absurd (ground arith)
  ]

-- ===== src/Registry/Index.antt =====
-- The two instance indexes of src/runtime_config_registry.cpp agree: what that means, and why one
-- round of either update loop keeps it so.
use time_series_engine.Base.{
  ◌≡◌, ◌≢◌, ◌∙◌, sym, ap, subst, refl, false, Option, none, some, String, str_eq, eq_iff, eq_refl,
  arith, inl, inr, Option-cases, Bool-cases,
}
use time_series_engine.Base.Assoc.{Table, lookup, insert, erase, lookup-insert, lookup-erase}
use time_series_engine.Base.Checked.{accepted}
use time_series_engine.Types.{ProjectId, SequenceId, RuntimeInstanceConfig}
use time_series_engine.Registry.{scoped_key, external_key}
use time_series_engine.Registry.Keys.{IsPlain, external_key-project}
use time_series_engine.Registry.Instances.{
  InstanceTables, stored, add_instance, drop_old_key, conflicts, put_instance,
}
use time_series_engine.Registry.Snapshot.{add_instance_step}

-- What holds of an entry `c` under the key `k`: the key is the entry's own, and the external index
-- leads from the entry's external identifiers back to its sequence.
pub record EntryIndexed (index : Table SequenceId) (k : String) (c : RuntimeInstanceConfig)
    : Type 0 where
  pub keyed : k ≡ scoped_key c.project_id c.sequence_id
  pub plain : IsPlain c.project_id
  pub indexed :
      lookup (external_key c.project_id c.data_source_id c.external_sequence_id) index
      ≡ some c.sequence_id

abbrev pub IsIndexed : InstanceTables → Type 0
IsIndexed t =
    (k : String) (c : RuntimeInstanceConfig)
    → lookup k t.instances ≡ some c
    → EntryIndexed t.external_index k c

lookup-insert_self {ℓ} :
    {V : Type ℓ} (k : String) (v : V) (m : Table V) → lookup k (insert k v m) ≡ some v
lookup-insert_self k v m = rw (lookup-insert k k v m, eq_refl k) refl

lookup-insert_ne {ℓ} :
    {V : Type ℓ} (k j : String) (v : V) (m : Table V) → k ≢ j → lookup j (insert k v m) ≡ lookup j m
lookup-insert_ne k j v m ne = ground (arith, lookup-insert k j v m, eq_iff k j)

lookup-erase_ne {ℓ} :
    {V : Type ℓ} (k j : String) (m : Table V) → k ≢ j → lookup j (erase k m) ≡ lookup j m
lookup-erase_ne k j m ne = ground (arith, lookup-erase k j m, eq_iff k j)

module _ (p : ProjectId) (item : RuntimeInstanceConfig) where
  abbrev own_key : String
  own_key = scoped_key p item.sequence_id

  abbrev own_external : String
  own_external = external_key p item.data_source_id item.external_sequence_id

  -- Where every other entry is indexed away from the new external key, writing the entry and its
  -- external key keeps the indexes in agreement.
  written-IsIndexed :
      (instances : Table RuntimeInstanceConfig) (index : Table SequenceId)
      → IsPlain p
      → ((k : String) (c : RuntimeInstanceConfig)
          → own_key ≢ k
          → lookup k instances ≡ some c
          → EntryIndexed index k c
            × (own_external ≢ external_key c.project_id c.data_source_id c.external_sequence_id))
      → IsIndexed (record {
        instances = insert own_key (stored p item) instances;
        external_index = insert own_external item.sequence_id index;
      })
  written-IsIndexed instances index hp others k c found = elim (Bool-cases (str_eq own_key k)) [
    | inl e ↦
        let same : own_key ≡ k = (eq_iff own_key k).0 e in
        let mine : stored p item ≡ c =
          ground (arith, lookup-insert own_key k (stored p item) instances) in
        subst (EntryIndexed (insert own_external item.sequence_id index) k) mine (record {
          keyed = sym same;
          plain = hp;
          indexed = lookup-insert_self own_external item.sequence_id index;
        })
    | inr e ↦
        let (entry, away) =
          others k c (λ same. cc (e, (eq_iff own_key k).1 same))
            (ground (arith, lookup-insert own_key k (stored p item) instances)) in
        record {
          keyed = entry.keyed;
          plain = entry.plain;
          indexed = lookup-insert_ne own_external _ item.sequence_id index away ∙ entry.indexed;
        }
  ]

  pub add_instance-IsIndexed :
      (t t' : InstanceTables)
      → IsPlain p
      → IsIndexed t
      → add_instance p item t ≡ accepted t'
      → IsIndexed t'
  add_instance-IsIndexed t t' hp ok h =
      let (fresh, free, ins, idx) = add_instance_step p item t t' h in
      λ k c found.
        subst (λ index. EntryIndexed index k c) (sym idx)
          (written-IsIndexed t.instances t.external_index hp
            (λ j d ne there. let entry = ok j d there in (entry, λ e. cc (free, entry.indexed))) k c
            (sym (ap (lookup k) ins) ∙ found))

  -- An entry with the identifiers of the item is the item's own.
  not_own :
      (k : String) (c : RuntimeInstanceConfig) (index : Table SequenceId)
      → IsPlain p
      → EntryIndexed index k c
      → own_key ≢ k
      → (source external : String)
      → external_key p source external
        ≡ external_key c.project_id c.data_source_id c.external_sequence_id
      → c.sequence_id ≢ item.sequence_id
  not_own k c index hp entry ne source external e same =
      let project = external_key-project p c.project_id _ _ _ _ hp entry.plain e in
      ne (cc (project, same, entry.keyed))

  -- Dropping the old external key of the item leaves every other entry indexed.
  drop_old_key-others :
      (t : InstanceTables)
      → IsPlain p
      → IsIndexed t
      → (k : String) (c : RuntimeInstanceConfig) → own_key ≢ k
      → lookup k t.instances ≡ some c
      → EntryIndexed (drop_old_key p item.sequence_id t) k c
  unfolding drop_old_key
  drop_old_key-others t hp ok k c ne found =
      let entry = ok k c found in
      let target = external_key c.project_id c.data_source_id c.external_sequence_id in
      elim (Option-cases (lookup own_key t.instances)) [
        | inl e ↦ rw (e, drop_old_key) entry
        | inr (existing, e) ↦
            let old = external_key p existing.data_source_id existing.external_sequence_id in
            elim (Option-cases (lookup old t.external_index)) [
              | inl e' ↦ rw (e, drop_old_key, e') entry
              | inr (owner, e') ↦ elim (Bool-cases (str_eq owner item.sequence_id)) [
                | inl e'' ↦
                    let away : old ≢ target = λ same.
                      not_own k c t.external_index hp entry ne _ _ same
                        (cc (e', entry.indexed, (eq_iff owner item.sequence_id).0 e'')) in
                    rw (e, drop_old_key, e', e'')
                      (record {
                        keyed = entry.keyed;
                        plain = entry.plain;
                        indexed = lookup-erase_ne old target t.external_index away ∙ entry.indexed;
                      })
                | inr e'' ↦ rw (e, drop_old_key, e', e'') entry
              ]
            ]
      ]

  pub put_instance_step :
      (t t' : InstanceTables)
      → put_instance p item t ≡ accepted t'
      → (conflicts (lookup own_external (drop_old_key p item.sequence_id t)) item.sequence_id
          ≡ false)
        × (t'.instances ≡ insert own_key (stored p item) t.instances)
        × (t'.external_index
            ≡ insert own_external item.sequence_id (drop_old_key p item.sequence_id t))
  unfolding put_instance
  put_instance_step t t' h = ground arith

  not_conflicting :
      (o : Option SequenceId) (id : SequenceId)
      → conflicts o item.sequence_id ≡ false
      → o ≡ some id
      → id ≡ item.sequence_id
  unfolding conflicts
  not_conflicting none id h e = cc
  not_conflicting (some owner) id h e = ground (arith, eq_iff owner item.sequence_id)

  pub put_instance-IsIndexed :
      (t t' : InstanceTables)
      → IsPlain p
      → IsIndexed t
      → put_instance p item t ≡ accepted t'
      → IsIndexed t'
  put_instance-IsIndexed t t' hp ok h k c found =
      let (free, ins, idx) = put_instance_step t t' h in
      let dropped = drop_old_key p item.sequence_id t in
      subst (λ index. EntryIndexed index k c) (sym idx)
        (written-IsIndexed t.instances dropped hp
          (λ j d ne there.
            let entry = drop_old_key-others t hp ok j d ne there in
            (
              entry,
              λ e. not_own j d dropped hp entry ne _ _ e (
                  not_conflicting _ d.sequence_id free
                    (ap (λ x. lookup x dropped) e ∙ entry.indexed)),
            ))
          k c (sym (ap (lookup k) ins) ∙ found))

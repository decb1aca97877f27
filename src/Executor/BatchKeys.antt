-- ===== src/Executor/BatchKeys.antt =====
-- The keys and the flags of a batch in src/grpc/ingest_task_executor.cpp: one key for each sequence,
-- and one flag for each writer.
use text.Mathlib.TextLemmas.{append_cancel_left}
use time_series_engine.Base.{
  ℕ, zero, suc, ◌≡◌, refl, sym, ap, ◌∙◌, inl, inr, true, false, Option, none, some, List, [], ◌∷◌,
  map, String, str_eq, eq_iff, length, set, replicate, arith, Option-cases, Bool-cases,
}
use time_series_engine.Base.Assoc.{Table, lookup, has_id}
use time_series_engine.Types.{
  ProjectId, SequenceId, RawTimeseriesPoint, TimeseriesBatch, OperationResult,
}
use time_series_engine.Registry.Lookups.{le_text, insert_sorted, sort_by}
use time_series_engine.Executor.Routing.{
  Routing, Shards, routing_key, push_point, sequences_of, shard_points, shard_batch,
}
use time_series_engine.Executor.Sharded.{has_id-insert_sorted, has_id-sort_by}
use time_series_engine.Executor.Pipeline.{Pipeline, try_submit, Distinct}

module _ {D : Type 0} where
  -- The keys that the loop over `batch_sequence_ids` looks up in `sequence_hot_tails_`.
  unfoldable pub keys_of_batch : TimeseriesBatch D → List String
  unfolding sequences_of sort_by routing_key
  keys_of_batch batch =
      map (routing_key batch.project_id) (sort_by (λ id. id) (sequences_of batch.points []))

  -- `none` if the split finds no writer.
  unfoldable pub submit_batch :
      ℕ → ℕ → TimeseriesBatch D → Routing → Pipeline → Routing × Option (Pipeline × OperationResult)
  unfolding shard_batch try_submit keys_of_batch
  submit_batch worker_count queue_capacity batch r p =
      let (r', shards) = shard_batch worker_count batch r in
      (
        r',
        elim shards [
          | none ↦ none
          | some split ↦ some (
              try_submit queue_capacity (length batch.points) (keys_of_batch batch)
                split.has_cold_work p)
        ],
      )

-- One key for each sequence.
pub self : (id : SequenceId) (ids : List SequenceId) → has_id id (id ∷ ids) ≡ true
unfolding has_id
self id ids = ground (arith, eq_iff id id)

pub insert_sorted-Distinct :
    (a : SequenceId) (ids : List SequenceId)
    → has_id a ids ≡ false
    → Distinct ids
    → Distinct (insert_sorted (λ k. k) a ids)
unfolding insert_sorted has_id
insert_sorted-Distinct a [] fresh d = (refl, tt)
insert_sorted-Distinct a (b ∷ ids) fresh d = elim (Bool-cases (le_text a b)) [
  | inl before ↦ rw (before) (fresh, d)
  | inr behind ↦
      let other : str_eq a b ≡ false = ground (arith, eq_iff a b, eq_iff b a) in
      rw (behind) (
        has_id-insert_sorted b a ids ∙ ground arith,
        insert_sorted-Distinct a ids (ground arith) d.1,
      )
]

pub sort_by-Distinct : (ids : List SequenceId) → Distinct ids → Distinct (sort_by (λ k. k) ids)
unfolding sort_by
sort_by-Distinct [] d = tt
sort_by-Distinct (a ∷ ids) d =
    insert_sorted-Distinct a (sort_by (λ k. k) ids) (has_id-sort_by a ids ∙ d.0)
      (sort_by-Distinct ids d.1)

pub sequences_of-absent :
    {D : Type 0} (id : SequenceId) (points : List (RawTimeseriesPoint D)) (seen : List SequenceId)
    → has_id id seen ≡ true
    → has_id id (sequences_of points seen) ≡ false
unfolding sequences_of has_id
sequences_of-absent id [] seen has = refl
sequences_of-absent id (p ∷ points) seen has =
    let later = sequences_of-absent id points (p.sequence_id ∷ seen) (ground arith) in
    elim (Bool-cases (str_eq p.sequence_id id)) [
      | inl same ↦
          let here : has_id p.sequence_id seen ≡ true =
            ap (λ k. has_id k seen) ((eq_iff p.sequence_id id).0 same) ∙ has in
          ground (arith, sequences_of-absent id points seen has)
      | inr other ↦ ground (arith, sequences_of-absent id points seen has)
    ]

pub sequences_of-Distinct :
    {D : Type 0} (points : List (RawTimeseriesPoint D)) (seen : List SequenceId)
    → Distinct (sequences_of points seen)
unfolding sequences_of
sequences_of-Distinct [] seen = tt
sequences_of-Distinct (p ∷ points) seen = elim (Bool-cases (has_id p.sequence_id seen)) [
  | inl has ↦ rw (has) (sequences_of-Distinct points seen)
  | inr fresh ↦ rw (fresh) (
    sequences_of-absent p.sequence_id points (p.sequence_id ∷ seen) (self p.sequence_id seen),
    sequences_of-Distinct points (p.sequence_id ∷ seen),
  )
]

pub routing_key-cancel :
    (project_id : ProjectId) (a b : SequenceId)
    → routing_key project_id a ≡ routing_key project_id b
    → a ≡ b
unfolding routing_key
routing_key-cancel project_id a b e = append_cancel_left _ a b e

pub has_id-routing_key :
    (project_id : ProjectId) (id : SequenceId) (ids : List SequenceId)
    → has_id (routing_key project_id id) (map (routing_key project_id) ids) ≡ has_id id ids
unfolding has_id
has_id-routing_key project_id id [] = refl
has_id-routing_key project_id id (a ∷ ids) = ground (
  arith,
  has_id-routing_key project_id id ids,
  eq_iff a id,
  eq_iff (routing_key project_id a) (routing_key project_id id),
  routing_key-cancel project_id a id,
  (λ (e : a ≡ id). ap (routing_key project_id) e),
)

pub map-Distinct :
    (project_id : ProjectId) (ids : List SequenceId)
    → Distinct ids
    → Distinct (map (routing_key project_id) ids)
map-Distinct project_id [] d = tt
map-Distinct project_id (a ∷ ids) d =
    (has_id-routing_key project_id a ids ∙ d.0, map-Distinct project_id ids d.1)

pub length-set {ℓ} : {A : Type ℓ} (xs : List A) (i : ℕ) (a : A) → length (set xs i a) ≡ length xs
length-set [] i a = refl
length-set (x ∷ xs) zero a = refl
length-set (x ∷ xs) (suc i) a = ap suc (length-set xs i a)

pub length-replicate {ℓ} : {A : Type ℓ} (n : ℕ) (a : A) → length (replicate n a) ≡ n
length-replicate zero a = refl
length-replicate (suc n) a = ap suc (length-replicate n a)

-- A flag for each cold worker.
pub length-shard_points :
    {D : Type 0} (writers : Table ℕ) (points : List (RawTimeseriesPoint D)) (s s' : Shards D)
    → shard_points writers points s ≡ some s'
    → length s'.has_cold_work ≡ length s.has_cold_work
unfolding shard_points
length-shard_points writers [] s s' e =
    let same : s ≡ s' = cc in ap (λ (o : Shards _). length o.has_cold_work) (sym same)
length-shard_points writers (p ∷ points) s s' e =
    elim (Option-cases (lookup p.sequence_id writers)) [
      | inl absent ↦
          let none_found : shard_points writers (p ∷ points) s ≡ none =
            rw (absent, shard_points) refl in
          absurd (cc)
      | inr (w, at) ↦
          let next : Shards _ = record {
            cold_batches = push_point w p s.cold_batches;
            has_cold_work = set s.has_cold_work w true;
          } in
          let found : shard_points writers (p ∷ points) s ≡ shard_points writers points next =
            rw (at, shard_points) refl in
          length-shard_points writers points next s' (sym found ∙ e)
          ∙ length-set s.has_cold_work w true
    ]

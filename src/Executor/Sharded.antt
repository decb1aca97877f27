-- ===== src/Executor/Sharded.antt =====
-- The split of a batch over the writers in src/grpc/ingest_task_executor.cpp.
use mathlib.Core.List.{append-nil, append_assoc}
use time_series_engine.Base.{
  none, not, is_nil, set, ℕ, zero, suc, ◌<◌, ◌==◌, ◌≡◌, refl, sym, ap, ◌∙◌, inl, inr, Bool, true,
  false, ◌||◌, Option, some, List, [], ◌∷◌, ◌++◌, str_eq, eq_iff, set, replicate, get_elem?,
  if◌then◌else◌, arith, Option-cases, All,
}
use time_series_engine.Base.Assoc.{Table, lookup, contains, has_id}
use time_series_engine.Types.{ProjectId, SequenceId, RawTimeseriesPoint, TimeseriesBatch}
use time_series_engine.Registry.Lookups.{insert_sorted, sort_by}
use time_series_engine.Executor.Routing.{
  Routing, routing_key, sequences_of, assign_writers, Shards, push_point, shard_points, shard_batch,
}
use time_series_engine.Executor.Writers.{points_of, IsRouting, Extends, assign_writers-IsAssigned}

pub has_id-insert_sorted :
    (id a : SequenceId) (ids : List SequenceId)
    → has_id id (insert_sorted (λ k. k) a ids) ≡ (str_eq a id || has_id id ids)
unfolding has_id insert_sorted
has_id-insert_sorted id a [] = refl
has_id-insert_sorted id a (b ∷ ids) = ground (arith, has_id-insert_sorted id a ids)

pub has_id-sort_by :
    (id : SequenceId) (ids : List SequenceId) → has_id id (sort_by (λ k. k) ids) ≡ has_id id ids
unfolding has_id sort_by
has_id-sort_by id [] = refl
has_id-sort_by id (a ∷ ids) =
    has_id-insert_sorted id a (sort_by (λ k. k) ids)
    ∙ ap (λ b. str_eq a id || b) (has_id-sort_by id ids)

get_elem?-set :
    (flags : List Bool) (i w : ℕ) (b : Bool)
    → get_elem? flags w ≡ some b
    → get_elem? (set flags i true) w ≡ some (i == w || b)
get_elem?-set [] i w b at = absurd (cc)
get_elem?-set (flag ∷ flags) zero zero b at = refl
get_elem?-set (flag ∷ flags) zero (suc w) b at = at ∙ ground arith
get_elem?-set (flag ∷ flags) (suc i) zero b at = at ∙ ground arith
get_elem?-set (flag ∷ flags) (suc i) (suc w) b at = get_elem?-set flags i w b at ∙ ground arith

module _ {D : Type 0} where
  abbrev pub occurs : SequenceId → List (RawTimeseriesPoint D) → Bool
  occurs id [] = false
  occurs id (p ∷ points) = str_eq p.sequence_id id || occurs id points

  pub has_id-sequences_of :
      (id : SequenceId) (points : List (RawTimeseriesPoint D)) (seen : List SequenceId)
      → (has_id id seen || has_id id (sequences_of points seen))
        ≡ (has_id id seen || occurs id points)
  unfolding has_id sequences_of
  has_id-sequences_of id [] seen = refl
  has_id-sequences_of id (p ∷ points) seen = ground (
    arith,
    has_id-sequences_of id points seen,
    has_id-sequences_of id points (p.sequence_id ∷ seen),
    eq_iff p.sequence_id id,
  )

  -- What a push leaves in a batch.
  get_elem?-push_point :
      (shard w : ℕ) (p : RawTimeseriesPoint D) (batches : List (List (RawTimeseriesPoint D)))
      (batch : List (RawTimeseriesPoint D))
      → get_elem? batches w ≡ some batch
      → get_elem? (push_point shard p batches) w
        ≡ some (if shard == w then batch ++ p ∷ [] else batch)
  unfolding push_point
  get_elem?-push_point shard w p [] batch at = absurd (cc)
  get_elem?-push_point zero zero p (b ∷ batches) batch at = ground arith
  get_elem?-push_point zero (suc w) p (b ∷ batches) batch at = ground arith
  get_elem?-push_point (suc shard) zero p (b ∷ batches) batch at = ground arith
  get_elem?-push_point (suc shard) (suc w) p (b ∷ batches) batch at =
      ground (arith, get_elem?-push_point shard w p batches batch at)

  module _ (project_id : ProjectId) (r : Routing) (writers : Table ℕ)
      (agrees : (id : SequenceId) (w : ℕ)
        → lookup id writers ≡ some w
        → lookup (routing_key project_id id) r.sequence_writers ≡ some w) where
    -- Each batch is extended by the points of its writer.
    abbrev Adds : List (RawTimeseriesPoint D) → Shards D → Shards D → Type 0
    Adds points s s' =
        (w : ℕ) (batch : List (RawTimeseriesPoint D))
        → get_elem? s.cold_batches w ≡ some batch
        → get_elem? s'.cold_batches w ≡ some (batch ++ points_of project_id r w points)

    shard_points-Adds :
        (points : List (RawTimeseriesPoint D)) (s : Shards D)
        → ((id : SequenceId) → occurs id points ≡ true → contains id writers ≡ true)
        → (s' : Shards D) × (shard_points writers points s ≡ some s') × Adds points s s'
    unfolding shard_points
    shard_points-Adds [] s all = (s, refl, λ w batch at. at ∙ ap some (sym (append-nil batch)))
    shard_points-Adds (p ∷ points) s all = elim (Option-cases (lookup p.sequence_id writers)) [
      | inl absent ↦ absurd (ground (arith, all p.sequence_id, eq_iff p.sequence_id p.sequence_id))
      | inr (shard, at) ↦
          let next : Shards D = record {
            cold_batches = push_point shard p s.cold_batches;
            has_cold_work = set s.has_cold_work shard true;
          } in
          let (s', ran, adds) = shard_points-Adds points next (λ id h. all id (ground arith)) in
          (
            s',
            rw (at, shard_points) ran,
            λ w batch here. ground (
              arith,
              adds w (if shard == w then batch ++ p ∷ [] else batch)
                  (get_elem?-push_point shard w p s.cold_batches batch here),
              agrees p.sequence_id shard at,
              append_assoc batch (p ∷ []) (points_of project_id r w points),
            ),
          )
    ]

    -- A flag says whether a worker has points.
    shard_points-flags :
        (points : List (RawTimeseriesPoint D)) (s s' : Shards D)
        → shard_points writers points s ≡ some s'
        → (w : ℕ) (b : Bool) → get_elem? s.has_cold_work w ≡ some b
        → get_elem? s'.has_cold_work w ≡ some (b || not (is_nil (points_of project_id r w points)))
    unfolding shard_points
    shard_points-flags [] s s' e w b at =
        let same : s ≡ s' = cc in
        ap (λ (o : Shards D). get_elem? o.has_cold_work w) (sym same) ∙ at ∙ ground arith
    shard_points-flags (p ∷ points) s s' e w b at =
        elim (Option-cases (lookup p.sequence_id writers)) [
          | inl absent ↦
              let none_found : shard_points writers (p ∷ points) s ≡ none =
                rw (absent, shard_points) refl in
              absurd (cc)
          | inr (shard, found) ↦
              let next : Shards D = record {
                cold_batches = push_point shard p s.cold_batches;
                has_cold_work = set s.has_cold_work shard true;
              } in
              let ran : shard_points writers (p ∷ points) s ≡ shard_points writers points next =
                rw (found, shard_points) refl in
              let rest =
                shard_points-flags points next s' (sym ran ∙ e) w (shard == w || b)
                  (get_elem?-set s.has_cold_work shard w b at) in
              ground (arith, rest, agrees p.sequence_id shard found)
        ]

All-occurs :
    {D : Type 0} (P : SequenceId → Type 0) (points : List (RawTimeseriesPoint D))
    → ((id : SequenceId) → occurs id points ≡ true → P id)
    → All (λ p. P p.sequence_id) points
All-occurs P [] h = tt
All-occurs P (p ∷ points) h = (
  h p.sequence_id (ground (arith, eq_iff p.sequence_id p.sequence_id)),
  All-occurs P points (λ id here. h id (ground arith)),
)

get_elem?-replicate {ℓ} :
    {A : Type ℓ} (n i : ℕ) (a : A) → i < n → get_elem? (replicate n a) i ≡ some a
get_elem?-replicate zero i a lt = absurd (omega arith)
get_elem?-replicate (suc n) zero a lt = refl
get_elem?-replicate (suc n) (suc i) a lt = get_elem?-replicate n i a (omega arith)

pub record IsSharded {D : Type 0} (worker_count : ℕ) (batch : TimeseriesBatch D) (r : Routing)
    (result : Routing × Option (Shards D)) : Type 0 where
  pub routed : IsRouting worker_count result.0
  pub extends : Extends r result.0
  pub shards : Shards D
  pub ran : result.1 ≡ some shards
  pub batches :
      (w : ℕ)
      → w < worker_count
      → get_elem? shards.cold_batches w ≡ some (points_of batch.project_id result.0 w batch.points)
  pub flags :
      (w : ℕ)
      → w < worker_count
      → get_elem? shards.has_cold_work w
        ≡ some (not (is_nil (points_of batch.project_id result.0 w batch.points)))
  pub written :
      All
        (λ p.
          (w : ℕ) × (w < worker_count)
          × (lookup (routing_key batch.project_id p.sequence_id) result.0.sequence_writers
              ≡ some w))
        batch.points

-- For at least one worker and a routing to workers only, the split of any batch succeeds: writers
-- that were assigned stay, every assigned writer is one of the workers, every point of the batch has
-- one, and each worker gets exactly the points of its sequences, in the order of the batch, and is flagged
-- if there are any.
pub shard_batch-IsSharded :
    {D : Type 0} (worker_count : ℕ) (batch : TimeseriesBatch D) (r : Routing)
    → 0 < worker_count
    → IsRouting worker_count r
    → IsSharded worker_count batch r (shard_batch worker_count batch r)
unfolding shard_batch lookup
shard_batch-IsSharded worker_count batch r some_worker g =
    let ids = sort_by (λ id. id) (sequences_of batch.points []) in
    let a =
      assign_writers-IsAssigned worker_count batch.project_id ids r [] some_worker g
        (λ id w at. absurd (cc)) in
    let all = λ (id : SequenceId) (here : occurs id batch.points ≡ true). a.assigned id (
      has_id-sort_by id (sequences_of batch.points [])
      ∙ has_id-sequences_of id batch.points []
      ∙ here) in
    let (shards, ran, adds) =
      shard_points-Adds batch.project_id (assign_writers worker_count batch.project_id ids r []).0
        (assign_writers worker_count batch.project_id ids r []).1 a.agrees batch.points _ all in
    record {
      routed = a.routed;
      extends = a.extends;
      shards = shards;
      ran = ran;
      flags = λ w lt.
          shard_points-flags batch.project_id
            (assign_writers worker_count batch.project_id ids r []).0
            (assign_writers worker_count batch.project_id ids r []).1 a.agrees batch.points _ shards
            ran w false (get_elem?-replicate worker_count w false lt);
      batches = λ w lt. adds w [] (get_elem?-replicate worker_count w [] lt);
      written =
          All-occurs
            (λ id.
              (w : ℕ) × (w < worker_count)
              × (lookup (routing_key batch.project_id id)
                    (assign_writers worker_count batch.project_id ids r []).0.sequence_writers
                  ≡ some w))
            batch.points
            (λ id here.
              elim (Option-cases
                (lookup id (assign_writers worker_count batch.project_id ids r []).1)) [
                  | inl absent ↦ absurd (cc (all id here, absent))
                  | inr (w, at) ↦
                      (w, a.routed.writers_below _ w (a.agrees id w at), a.agrees id w at)
                ]);
    }

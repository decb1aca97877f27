-- ===== src/Executor/Submit.antt =====
-- `trySubmit` of src/grpc/ingest_task_executor.cpp as a whole: a batch is split, and its task is
-- admitted or refused.
use time_series_engine.Base.{
  zero, ◌∷◌, ◌++◌, ap, if◌then◌else◌, not, is_nil, map, All, get_elem?, eq_iff, ℕ, suc, ◌<◌, ◌≤◌,
  ◌≡◌, refl, sym, subst, ◌∙◌, ◌⊎◌, inl, inr, Bool, true, false, leb, Option, some, List, [], String,
  length, arith, Bool-cases,
}
use time_series_engine.Base.Assoc.{has_id}
use time_series_engine.Registry.Lookups.{sort_by}
use time_series_engine.Operation.{make_operation_result, ok}
use time_series_engine.Types.{SequenceId, TimeseriesBatch, OperationCode, OperationResult}
use time_series_engine.Executor.Routing.{Routing, routing_key, sequences_of, shard_batch}
use time_series_engine.Executor.Writers.{IsRouting, Extends, points_of}
use time_series_engine.Executor.Sharded.{
  shard_batch-IsSharded, occurs, has_id-sort_by, has_id-sequences_of,
}
use time_series_engine.Executor.Pipeline.{
  Task, Phase, push_cold, Pipeline, unavailable, admit, try_submit, PipelineStep, submit,
}
use time_series_engine.Executor.BatchKeys.{
  keys_of_batch, submit_batch, sort_by-Distinct, sequences_of-Distinct, map-Distinct,
  length-replicate, length-shard_points, has_id-routing_key,
}

-- What an admitted batch brings: one task at the end, with one key for each sequence of the batch and
-- no other; its place in the hot queue, and in the cold queue of each writer that has points of it.
pub record IsAdmitted {D : Type 0} (worker_count : ℕ) (batch : TimeseriesBatch D) (r : Routing)
    (p after : Pipeline) : Type 0 where
  pub task : Task
  pub tasks : after.tasks ≡ p.tasks ++ task ∷ []
  pub queued : task.phase ≡ Phase.queued
  pub keys :
      (id : SequenceId)
      → has_id (routing_key batch.project_id id) task.keys ≡ occurs id batch.points
  pub only_keys :
      All
        (λ key.
          (id : SequenceId) × (key ≡ routing_key batch.project_id id)
          × (occurs id batch.points ≡ true))
        task.keys
  pub hot : after.hot_queue ≡ p.hot_queue ++ length p.tasks ∷ []
  pub cold :
      (w : ℕ) (queue : List ℕ)
      → w < worker_count
      → get_elem? p.cold_queues w ≡ some queue
      → get_elem? after.cold_queues w
        ≡ some (
            if is_nil (points_of batch.project_id r w batch.points)
            then queue
            else queue ++ length p.tasks ∷ [])
  pub pending : after.pending_tasks ≡ suc p.pending_tasks

abbrev pub AdmittedOrRefused :
    {D : Type 0}
    → ℕ
    → ℕ
    → TimeseriesBatch D
    → Routing
    → Pipeline
    → Pipeline
    → OperationResult
    → Type 0
AdmittedOrRefused worker_count queue_capacity batch r p after result =
    ((result.code ≡ OperationCode.ok)
      × IsAdmitted worker_count batch r p after
      × (p.stopping ≡ false)
      × (p.pending_tasks < queue_capacity))
    ⊎ ((result.code ≡ OperationCode.unavailable)
        × (after ≡ p)
        × ((p.stopping ≡ true) ⊎ (queue_capacity ≤ p.pending_tasks)))

pub record IsSubmitted {D : Type 0} (hot_worker_count worker_count queue_capacity : ℕ)
    (batch : TimeseriesBatch D) (r : Routing) (p : Pipeline)
    (submitted : Routing × Option (Pipeline × OperationResult)) : Type 0 where
  pub routed : IsRouting worker_count submitted.0
  pub extends : Extends r submitted.0
  pub after : Pipeline
  pub result : OperationResult
  pub returns : submitted.1 ≡ some (after, result)
  pub steps : PipelineStep hot_worker_count queue_capacity worker_count p after
  pub admitted_or_refused :
      AdmittedOrRefused worker_count queue_capacity batch submitted.0 p after result

get_elem?-push_cold :
    (task : ℕ) (works : List Bool) (queues : List (List ℕ)) (w : ℕ) (b : Bool) (queue : List ℕ)
    → get_elem? works w ≡ some b
    → get_elem? queues w ≡ some queue
    → get_elem? (push_cold task works queues) w ≡ some (if b then queue ++ task ∷ [] else queue)
unfolding push_cold
get_elem?-push_cold task [] queues w b queue flag at = absurd (cc)
get_elem?-push_cold task (work ∷ works) [] w b queue flag at = absurd (cc)
get_elem?-push_cold task (true ∷ works) (q ∷ queues) zero true queue flag at =
    let same : q ≡ queue = cc in ap (λ l. some (l ++ task ∷ [])) same
get_elem?-push_cold task (true ∷ works) (q ∷ queues) zero false queue flag at = absurd (cc)
get_elem?-push_cold task (false ∷ works) (q ∷ queues) zero true queue flag at = absurd (cc)
get_elem?-push_cold task (false ∷ works) (q ∷ queues) zero false queue flag at = at
get_elem?-push_cold task (work ∷ works) (q ∷ queues) (suc w) b queue flag at =
    get_elem?-push_cold task works queues w b queue flag at

All-has_id :
    (ids : List SequenceId) (Holds : SequenceId → Type 0)
    → ((id : SequenceId) → has_id id ids ≡ true → Holds id)
    → All Holds ids
unfolding has_id
All-has_id [] Holds h = tt
All-has_id (id ∷ ids) Holds h =
    (h id (ground (arith, eq_iff id id)), All-has_id ids Holds (λ k e. h k (ground arith)))

All-of_map :
    (f : SequenceId → String) (Holds : String → Type 0) (ids : List SequenceId)
    → All (λ id. Holds (f id)) ids
    → All Holds (map f ids)
All-of_map f Holds [] all = tt
All-of_map f Holds (id ∷ ids) all = (all.0, All-of_map f Holds ids all.1)

module _ {D : Type 0} (worker_count queue_capacity : ℕ) (batch : TimeseriesBatch D) (r : Routing)
    (p : Pipeline) (flags : List Bool)
    (flagged : (w : ℕ)
      → w < worker_count
      → get_elem? flags w ≡ some (not (is_nil (points_of batch.project_id r w batch.points)))) where
  ids_of_batch :
      (id : SequenceId)
      → has_id id (sort_by (λ k. k) (sequences_of batch.points [])) ≡ occurs id batch.points
  unfolding has_id
  ids_of_batch id =
      has_id-sort_by id (sequences_of batch.points []) ∙ has_id-sequences_of id batch.points []

  admit-IsAdmitted : IsAdmitted worker_count batch r p (admit (keys_of_batch batch) flags p)
  unfolding admit keys_of_batch
  admit-IsAdmitted =
      let ids = sort_by (λ (k : SequenceId). k) (sequences_of batch.points []) in
      record {
        task = _;
        tasks = refl;
        queued = refl;
        keys = λ id. has_id-routing_key batch.project_id id ids ∙ ids_of_batch id;
        only_keys =
            All-of_map (routing_key batch.project_id) _ ids
              (All-has_id ids _ (λ id here. (id, refl, sym (ids_of_batch id) ∙ here)));
        hot = refl;
        cold = λ w queue lt at.
            get_elem?-push_cold (length p.tasks) flags p.cold_queues w _ queue (flagged w lt) at
            ∙ ground arith;
        pending = omega arith;
      }

  try_submit-AdmittedOrRefused :
      (failed_count : ℕ)
      → AdmittedOrRefused worker_count queue_capacity batch r p
          (try_submit queue_capacity failed_count (keys_of_batch batch) flags p).0
          (try_submit queue_capacity failed_count (keys_of_batch batch) flags p).1
  unfolding try_submit unavailable make_operation_result ok
  try_submit-AdmittedOrRefused failed_count = elim (Bool-cases p.stopping) [
    | inl stopped ↦ inr (ground arith, ground arith, inl stopped)
    | inr opened ↦ elim (Bool-cases (leb queue_capacity p.pending_tasks)) [
      | inl full ↦ inr (ground arith, ground arith, inr (ground arith))
      | inr room ↦
          let taken : try_submit queue_capacity failed_count (keys_of_batch batch) flags p
              ≡ (admit (keys_of_batch batch) flags p, ok 0 "ingest task admitted") =
            ground arith in
          subst
            (λ (o : Pipeline × OperationResult).
              AdmittedOrRefused worker_count queue_capacity batch r p o.0 o.1)
            (sym taken) (inl (refl, admit-IsAdmitted, opened, ground arith))
    ]
  ]

-- With at least one cold worker and a routing to workers only, the submission of any batch returns a
-- result, by one step of the executor, and leaves a routing to workers only that keeps the writers
-- assigned before. If the executor is open and has room, the result is Ok, and one pending task more is
-- there: it has one key for each sequence of the batch and no other, and stands at the end of the hot
-- queue and of the cold queue of each writer that has points of the batch, and of no other. Else the
-- result is Unavailable, and tasks, queues and counts are as they were.
pub submit_batch-IsSubmitted :
    {D : Type 0} (hot_worker_count worker_count queue_capacity : ℕ) (batch : TimeseriesBatch D)
    (r : Routing) (p : Pipeline)
    → 0 < worker_count
    → IsRouting worker_count r
    → IsSubmitted hot_worker_count worker_count queue_capacity batch r p
        (submit_batch worker_count queue_capacity batch r p)
unfolding submit_batch shard_batch keys_of_batch
submit_batch-IsSubmitted hot_worker_count worker_count queue_capacity batch r p some_worker g =
    let split = shard_batch-IsSharded worker_count batch r some_worker g in
    let flags = split.shards.has_cold_work in
    record {
      routed = split.routed;
      extends = split.extends;
      after = (try_submit queue_capacity (length batch.points) (keys_of_batch batch) flags p).0;
      result = (try_submit queue_capacity (length batch.points) (keys_of_batch batch) flags p).1;
      returns = rw (split.ran, submit_batch) refl;
      steps =
          submit (length batch.points) (keys_of_batch batch) flags
            (map-Distinct batch.project_id _ (
              sort_by-Distinct (sequences_of batch.points [])
                (sequences_of-Distinct batch.points [])))
            (length-shard_points _ batch.points _ split.shards split.ran
              ∙ length-replicate worker_count false);
      admitted_or_refused =
          try_submit-AdmittedOrRefused worker_count queue_capacity batch
            (shard_batch worker_count batch r).0 p flags split.flags (length batch.points);
    }

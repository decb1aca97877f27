-- ===== src/Executor/Routing.antt =====
-- src/grpc/ingest_task_executor.cpp: the writer of a sequence, and a batch split over the writers.
use time_series_engine.Base.{
  ℕ, zero, suc, ◌+◌, ◌%◌, Bool, true, false, Option, none, some, List, [], ◌∷◌, ◌++◌, String, ◌<>◌,
  set, replicate, if◌then◌else◌,
}
use time_series_engine.Base.Assoc.{Table, lookup, emplace, has_id}
use time_series_engine.Types.{ProjectId, SequenceId, RawTimeseriesPoint, TimeseriesBatch}
use time_series_engine.Registry.Lookups.{sort_by}

-- The members under `routing_mutex_`.
pub record Routing : Type 0 where
  pub sequence_writers : Table ℕ
  pub next_writer_index : ℕ

unfoldable pub routing_key : ProjectId → SequenceId → String
routing_key project_id sequence_id = (project_id <> "\u{1e}") <> sequence_id

unfoldable pub writer_for_sequence : ℕ → ProjectId → SequenceId → Routing → ℕ × Routing
unfolding lookup emplace routing_key
writer_for_sequence worker_count project_id sequence_id r =
    let key = routing_key project_id sequence_id in
    elim (lookup key r.sequence_writers) [
      | some writer ↦ (writer, r)
      | none ↦ (
        r.next_writer_index,
        record {
          sequence_writers = emplace key r.next_writer_index r.sequence_writers;
          next_writer_index = (r.next_writer_index + 1) % worker_count;
        },
      )
    ]

module _ {D : Type 0} where
  -- `batch_sequence_ids`, in the order of the points.
  unfoldable pub sequences_of : List (RawTimeseriesPoint D) → List SequenceId → List SequenceId
  unfolding has_id
  sequences_of [] seen = []
  sequences_of (p ∷ points) seen =
      let rest =
        sequences_of points (if has_id p.sequence_id seen then seen else p.sequence_id ∷ seen) in
      if has_id p.sequence_id seen then rest else p.sequence_id ∷ rest

-- The loop that fills `batch_writers`.
unfoldable pub assign_writers :
    ℕ → ProjectId → List SequenceId → Routing → Table ℕ → Routing × Table ℕ
unfolding writer_for_sequence emplace
assign_writers worker_count project_id [] r writers = (r, writers)
assign_writers worker_count project_id (id ∷ ids) r writers =
    let (writer, r') = writer_for_sequence worker_count project_id id r in
    assign_writers worker_count project_id ids r' (emplace id writer writers)

-- `task->remaining_lanes`: the hot lane, and each cold lane with work.
unfoldable pub lanes_of : List Bool → ℕ
lanes_of [] = 1
lanes_of (has_work ∷ rest) = let lanes = lanes_of rest in if has_work then lanes + 1 else lanes

-- `cold_batches` and `has_cold_work`
pub record Shards (D : Type 0) : Type 0 where
  pub cold_batches : List (List (RawTimeseriesPoint D))
  pub has_cold_work : List Bool

module _ {D : Type 0} where
  -- `cold_batches[shard].points.push_back(point)`
  unfoldable pub push_point :
      ℕ
      → RawTimeseriesPoint D
      → List (List (RawTimeseriesPoint D))
      → List (List (RawTimeseriesPoint D))
  push_point shard p [] = []
  push_point zero p (batch ∷ batches) = (batch ++ p ∷ []) ∷ batches
  push_point (suc shard) p (batch ∷ batches) = batch ∷ push_point shard p batches

  -- The loop over the points; `none` if `batch_writers.at` finds no writer.
  unfoldable pub shard_points : Table ℕ → List (RawTimeseriesPoint D) → Shards D → Option (Shards D)
  unfolding lookup push_point
  shard_points writers [] shards = some shards
  shard_points writers (p ∷ points) shards = elim (lookup p.sequence_id writers) [
    | none ↦ none
    | some shard ↦ shard_points writers points (record {
      cold_batches = push_point shard p shards.cold_batches;
      has_cold_work = set shards.has_cold_work shard true;
    })
  ]

  unfoldable pub shard_batch : ℕ → TimeseriesBatch D → Routing → Routing × Option (Shards D)
  unfolding sequences_of sort_by assign_writers shard_points
  shard_batch worker_count batch r =
      let ids = sort_by (λ id. id) (sequences_of batch.points []) in
      let (r', writers) = assign_writers worker_count batch.project_id ids r [] in
      (
        r',
        shard_points writers batch.points (record {
          cold_batches = replicate worker_count [];
          has_cold_work = replicate worker_count false;
        }),
      )

-- ===== src/Executor/Writers.antt =====
-- The writers of sequences in src/grpc/ingest_task_executor.cpp.
use time_series_engine.Base.{
  ℕ, ◌<◌, ◌==◌, ◌≡◌, ap, subst, inl, inr, Bool, true, false, Option, none, some, List, [], ◌∷◌,
  String, str_eq, eq_iff, if◌then◌else◌, arith, Option-cases, Bool-cases,
}
use time_series_engine.Base.Assoc.{Table, lookup, emplace, contains, lookup-emplace, has_id}
use time_series_engine.Types.{ProjectId, SequenceId, RawTimeseriesPoint}
use time_series_engine.Executor.Routing.{Routing, routing_key, writer_for_sequence, assign_writers}

abbrev pub writer_is : ℕ → Option ℕ → Bool
writer_is w none = false
writer_is w (some v) = v == w

-- The points whose sequence has the writer, in their order.
abbrev pub points_of :
    {D : Type 0}
    → ProjectId
    → Routing
    → ℕ
    → List (RawTimeseriesPoint D)
    → List (RawTimeseriesPoint D)
points_of project_id r w [] = []
points_of project_id r w (p ∷ points) =
    let rest = points_of project_id r w points in
    if writer_is w (lookup (routing_key project_id p.sequence_id) r.sequence_writers)
    then p ∷ rest
    else rest

-- The writers are workers.
pub record IsRouting (worker_count : ℕ) (r : Routing) : Type 0 where
  pub next_below : r.next_writer_index < worker_count
  pub writers_below :
      (key : String) (w : ℕ) → lookup key r.sequence_writers ≡ some w → w < worker_count

abbrev pub Extends : Routing → Routing → Type 0
Extends r r' =
    (key : String) (w : ℕ)
    → lookup key r.sequence_writers ≡ some w
    → lookup key r'.sequence_writers ≡ some w

pub lookup-emplace_absent :
    (k j : String) (v : ℕ) (t : Table ℕ)
    → lookup k t ≡ none
    → lookup j (emplace k v t) ≡ (if str_eq k j then some v else lookup j t)
lookup-emplace_absent k j v t absent = ground (arith, lookup-emplace k j v t)

module _ (worker_count : ℕ) (project_id : ProjectId) where
  pub writer-Extends :
      (id : SequenceId) (r : Routing)
      → Extends r (writer_for_sequence worker_count project_id id r).1
  unfolding writer_for_sequence
  writer-Extends id r key w at =
      elim (Option-cases (lookup (routing_key project_id id) r.sequence_writers)) [
        | inl absent ↦ ground (
          arith,
          lookup-emplace_absent (routing_key project_id id) key r.next_writer_index
              r.sequence_writers absent,
          eq_iff (routing_key project_id id) key,
        )
        | inr (v, there) ↦ ground arith
      ]

  pub writer_lem :
      (id : SequenceId) (r : Routing)
      → lookup
          (routing_key project_id id)
          (writer_for_sequence worker_count project_id id r).1.sequence_writers
        ≡ some (writer_for_sequence worker_count project_id id r).0
  unfolding writer_for_sequence
  writer_lem id r = elim (Option-cases (lookup (routing_key project_id id) r.sequence_writers)) [
    | inl absent ↦ ground (
      arith,
      lookup-emplace_absent (routing_key project_id id) (routing_key project_id id)
          r.next_writer_index r.sequence_writers absent,
      eq_iff (routing_key project_id id) (routing_key project_id id),
    )
    | inr (v, there) ↦ ground arith
  ]

  pub writer-IsRouting :
      (id : SequenceId) (r : Routing)
      → 0 < worker_count
      → IsRouting worker_count r
      → IsRouting worker_count (writer_for_sequence worker_count project_id id r).1
  unfolding writer_for_sequence
  writer-IsRouting id r some_worker g =
      elim (Option-cases (lookup (routing_key project_id id) r.sequence_writers)) [
        | inl absent ↦ record {
          next_below = grind arith;
          writers_below = λ key w at. ground (
            arith,
            lookup-emplace_absent (routing_key project_id id) key r.next_writer_index
                r.sequence_writers absent,
            g.writers_below key w,
          );
        }
        | inr (v, there) ↦ rw (there, writer_for_sequence) g
      ]

  -- The writers of a batch are those of the router.
  abbrev pub Agrees : Table ℕ → Routing → Type 0
  Agrees writers r =
      (id : SequenceId) (w : ℕ)
      → lookup id writers ≡ some w
      → lookup (routing_key project_id id) r.sequence_writers ≡ some w

  pub record IsAssigned (ids : List SequenceId) (r : Routing) (writers : Table ℕ) (r' : Routing)
      (writers' : Table ℕ) : Type 0 where
    pub routed : IsRouting worker_count r'
    pub extends : Extends r r'
    pub agrees : Agrees writers' r'
    pub kept : (id : SequenceId) → contains id writers ≡ true → contains id writers' ≡ true
    pub assigned : (id : SequenceId) → has_id id ids ≡ true → contains id writers' ≡ true

  pub contains-emplace :
      (id j : String) (w : ℕ) (t : Table ℕ)
      → contains j t ≡ true
      → contains j (emplace id w t) ≡ true
  contains-emplace id j w t h = ground (arith, lookup-emplace id j w t, eq_iff id j)

  pub contains-emplace_self :
      (id : String) (w : ℕ) (t : Table ℕ) → contains id (emplace id w t) ≡ true
  contains-emplace_self id w t = ground (arith, lookup-emplace id id w t, eq_iff id id)

  pub Agrees-emplace :
      (id : SequenceId) (w : ℕ) (writers : Table ℕ) (r : Routing)
      → lookup (routing_key project_id id) r.sequence_writers ≡ some w
      → Agrees writers r
      → Agrees (emplace id w writers) r
  Agrees-emplace id w writers r at agrees j v found = elim (Bool-cases (str_eq id j)) [
    | inl same ↦
        let one : id ≡ j = (eq_iff id j).0 same in
        ground (arith, lookup-emplace id j w writers, ap (routing_key project_id) one, agrees j v)
    | inr other ↦ agrees j v (ground (arith, lookup-emplace id j w writers))
  ]

  pub assign_writers-IsAssigned :
      (ids : List SequenceId) (r : Routing) (writers : Table ℕ)
      → 0 < worker_count
      → IsRouting worker_count r
      → Agrees writers r
      → IsAssigned ids r writers
          (assign_writers worker_count project_id ids r writers).0
          (assign_writers worker_count project_id ids r writers).1
  unfolding assign_writers has_id
  assign_writers-IsAssigned [] r writers some_worker g agrees = record {
    routed = g;
    extends = λ key w at. at;
    agrees = agrees;
    kept = λ id h. h;
    assigned = λ id h. absurd (cc);
  }
  assign_writers-IsAssigned (id ∷ ids) r writers some_worker g agrees =
      let chosen = writer_for_sequence worker_count project_id id r in
      let before = λ (j : SequenceId) (w : ℕ) (at : lookup j writers ≡ some w).
        writer-Extends id r _ w (agrees j w at) in
      let rest =
        assign_writers-IsAssigned ids chosen.1 (emplace id chosen.0 writers) some_worker
          (writer-IsRouting id r some_worker g)
          (Agrees-emplace id chosen.0 writers chosen.1 (writer_lem id r) before) in
      record {
        routed = rest.routed;
        extends = λ key w at. rest.extends key w (writer-Extends id r key w at);
        agrees = rest.agrees;
        kept = λ j h. rest.kept j (contains-emplace id j chosen.0 writers h);
        assigned = λ j h. elim (Bool-cases (str_eq id j)) [
          | inl same ↦ rest.kept j (
              subst (λ k. contains k (emplace id chosen.0 writers) ≡ true) ((eq_iff id j).0 same)
                (contains-emplace_self id chosen.0 writers))
          | inr other ↦ rest.assigned j (ground arith)
        ];
      }

-- ===== src/Ingest/Resolved.antt =====
-- What src/ingest_service.cpp resolves, and how it accounts for the rest.
use time_series_engine.Base.{
  ◌+◌, ◌<◌, ◌≡◌, ◌∙◌, ◌≢◌, sym, subst, refl, true, false, none, some, List, [], ◌∷◌, ◌++◌, length,
  arith, All, length-append,
}
use mathlib.Core.List.{append-nil, append_assoc}
use time_series_engine.Floating.{Floating}
use time_series_engine.Operation
use time_series_engine.Registry.{RuntimeConfigRegistry}
use time_series_engine.Registry.Lookups.{find_instance}
use time_series_engine.Types.{
  ProjectId, TimeseriesIngestData, RawTimeseriesPoint, RuntimeInstanceConfig, OperationCode,
}
use time_series_engine.Ingest.{
  Identity, PointOutcome, identified, unidentified, resolved, failed, Resolution,
  initial_resolution, value_matches_data_type, identify, type_mismatch, is_not_finite,
  check_identified, resolve_point, record_outcome, resolve_loop, ingest_and_resolve_data,
}

module _ {D : Type 0} ⦃f : Floating D⦄ where
  -- A point that may be stored: of the request's project and of a registered sequence whose data
  -- type the value has, and finite if it is a number.
  pub record IsResolved (r : RuntimeConfigRegistry D) (project_id : ProjectId)
      (p : RawTimeseriesPoint D) : Type 0 where
    pub config : RuntimeInstanceConfig
    pub project : p.project_id ≡ project_id
    pub registered : find_instance r project_id p.sequence_id ≡ some config
    pub typed : value_matches_data_type config.data_type p.value ≡ true
    pub finite : is_not_finite p.value ≡ false

  identified_registered :
      (r : RuntimeConfigRegistry D) (project_id : ProjectId) (point : TimeseriesIngestData D)
      (id : _) (c : RuntimeInstanceConfig)
      → identify r project_id point ≡ identified id (some c)
      → find_instance r project_id id ≡ some c
  unfolding identify
  identified_registered r project_id point id c h = ground arith

  check_identified-IsResolved :
      (r : RuntimeConfigRegistry D) (project_id : ProjectId) (point : TimeseriesIngestData D)
      (p : RawTimeseriesPoint D) (i : Identity)
      → identify r project_id point ≡ i
      → check_identified project_id point i ≡ resolved p
      → IsResolved r project_id p
  unfolding check_identified type_mismatch
  check_identified-IsResolved r project_id point p (unidentified code error) e h = absurd (cc)
  check_identified-IsResolved r project_id point p (identified id none) e h = absurd (cc)
  check_identified-IsResolved r project_id point p (identified id (some c)) e h =
      let known = identified_registered r project_id point id c e in
      record {
        config = c;
        project = ground arith;
        registered = ground arith;
        typed = ground arith;
        finite = ground arith;
      }

  pub resolve_point-IsResolved :
      (r : RuntimeConfigRegistry D) (project_id : ProjectId) (point : TimeseriesIngestData D)
      (p : RawTimeseriesPoint D)
      → resolve_point r project_id point ≡ resolved p
      → IsResolved r project_id p
  unfolding resolve_point
  resolve_point-IsResolved r project_id point p h =
      check_identified-IsResolved r project_id point p (identify r project_id point) refl h

  abbrev pub keep_resolved :
      PointOutcome D → List (RawTimeseriesPoint D) → List (RawTimeseriesPoint D)
  keep_resolved (resolved p) rest = p ∷ rest
  keep_resolved (failed code error) rest = rest

  -- The points that resolve, in the order of the request.
  abbrev pub resolved_of :
      RuntimeConfigRegistry D
      → ProjectId
      → List (TimeseriesIngestData D)
      → List (RawTimeseriesPoint D)
  resolved_of r project_id [] = []
  resolved_of r project_id (point ∷ points) =
      keep_resolved (resolve_point r project_id point) (resolved_of r project_id points)

  resolved_of-IsResolved :
      (r : RuntimeConfigRegistry D) (project_id : ProjectId) (input : List (TimeseriesIngestData D))
      → All (IsResolved r project_id) (resolved_of r project_id input)
  resolved_of-IsResolved r project_id [] = tt
  resolved_of-IsResolved r project_id (point ∷ input) =
      by_outcome (resolve_point r project_id point) refl (resolved_of-IsResolved r project_id input)
    where
      by_outcome :
          (o : PointOutcome D)
          → resolve_point r project_id point ≡ o
          → All (IsResolved r project_id) (resolved_of r project_id input)
          → All (IsResolved r project_id) (keep_resolved o (resolved_of r project_id input))
      by_outcome (resolved p) e rest = (resolve_point-IsResolved r project_id point p e, rest)
      by_outcome (failed code error) e rest = rest

  record_outcome-points :
      (o : PointOutcome D) (acc : Resolution D) (rest : List (RawTimeseriesPoint D))
      → (record_outcome o acc).points ++ rest ≡ acc.points ++ keep_resolved o rest
  unfolding record_outcome
  record_outcome-points (resolved p) acc rest = append_assoc acc.points (p ∷ []) rest
  record_outcome-points (failed code error) acc rest = ground arith

  record_outcome-counts :
      (o : PointOutcome D) (acc : Resolution D)
      → length (record_outcome o acc).points + (record_outcome o acc).failed_count
        ≡ length acc.points + acc.failed_count + 1
  unfolding record_outcome
  record_outcome-counts (resolved p) acc = omega (arith, length-append acc.points (p ∷ []))
  record_outcome-counts (failed code error) acc = ground arith

  resolve_loop-points :
      (r : RuntimeConfigRegistry D) (project_id : ProjectId) (input : List (TimeseriesIngestData D))
      (acc : Resolution D)
      → (resolve_loop r project_id input acc).points ≡ acc.points ++ resolved_of r project_id input
  unfolding resolve_loop
  resolve_loop-points r project_id [] acc = sym (append-nil acc.points)
  resolve_loop-points r project_id (point ∷ input) acc =
      resolve_loop-points r project_id input (record_outcome (resolve_point r project_id point) acc)
      ∙ record_outcome-points (resolve_point r project_id point) acc
          (resolved_of r project_id input)

  resolve_loop-counts :
      (r : RuntimeConfigRegistry D) (project_id : ProjectId) (input : List (TimeseriesIngestData D))
      (acc : Resolution D)
      → length (resolve_loop r project_id input acc).points
          + (resolve_loop r project_id input acc).failed_count
        ≡ length acc.points + acc.failed_count + length input
  unfolding resolve_loop
  resolve_loop-counts r project_id [] acc = omega arith
  resolve_loop-counts r project_id (point ∷ input) acc =
      let o = resolve_point r project_id point in
      omega (
        arith,
        resolve_loop-counts r project_id input (record_outcome o acc),
        record_outcome-counts o acc,
      )

  pub ingest-IsResolved :
      (r : RuntimeConfigRegistry D) (project_id : ProjectId) (input : List (TimeseriesIngestData D))
      → ((ingest_and_resolve_data r project_id input).resolved_data.points
          ≡ resolved_of r project_id input)
        × All
            (IsResolved r project_id)
            (ingest_and_resolve_data r project_id input).resolved_data.points
  unfolding ingest_and_resolve_data
  ingest-IsResolved r project_id [] = (refl, tt)
  ingest-IsResolved r project_id (point ∷ input) =
      let all = resolve_loop-points r project_id (point ∷ input) initial_resolution in
      (
        all,
        subst (All (IsResolved r project_id)) (sym all)
            (resolved_of-IsResolved r project_id (point ∷ input)),
      )

  -- The counts of a request that is not empty: every point is a success or a failure, the
  -- successes are the points of the result, and the code is `Ok` if nothing failed and
  -- `PartialSuccess` if some points resolved and some failed.
  pub ingest-counts :
      (r : RuntimeConfigRegistry D) (project_id : ProjectId) (input : List (TimeseriesIngestData D))
      → input ≢ []
      → let result = ingest_and_resolve_data r project_id input in
        (result.operation.success_count + result.operation.failed_count ≡ length input)
        × (result.operation.success_count ≡ length result.resolved_data.points)
        × (result.operation.failed_count ≡ 0 → result.operation.code ≡ OperationCode.ok)
        × (0 < result.operation.success_count
            → 0 < result.operation.failed_count
            → result.operation.code ≡ OperationCode.partial_success)
  unfolding ingest_and_resolve_data Operation.ok
  ingest-counts r project_id [] h = absurd (h refl)
  ingest-counts r project_id (point ∷ input) h =
      let counts = resolve_loop-counts r project_id (point ∷ input) initial_resolution in
      (ground arith, ground arith, ground arith, ground arith)

-- ===== src/Window/Accepted.antt =====
-- The whole of `updateWindowIncremental` in src/window_service.cpp: its outcomes, and what an accepted
-- batch leaves in each window of the project.
use time_series_engine.Base.{
  ◌≡◌, ◌⊎◌, refl, ◌∙◌, sym, ap, subst, Bool, true, false, Option, none, some, List, [], String,
  ◌<>◌, starts_with, starts_with-append, if◌then◌else◌, value_or, Option-cases, inl, inr, ℤ, ltb_ℤ,
}
use time_series_engine.Base.Assoc.{Table, lookup}
use time_series_engine.Floating.{Floating, Extended}
use time_series_engine.Operation
use time_series_engine.Types.{
  Timestamp, ProjectId, SequenceId, OperationCode, RawTimeseriesPoint, TimeseriesBatch,
}
use time_series_engine.Window.{SequenceWindow}
use time_series_engine.Window.Points.{is_strictly_increasing}
use time_series_engine.Window.Sequence.{prepare}
use time_series_engine.Window.Lookup.{first_some}
use time_series_engine.Window.View.{view}
use time_series_engine.Window.Invariant.{IsWindow}
use time_series_engine.Window.Update.{update_sequence-view, update_sequence-IsWindow}
use time_series_engine.Window.Prune.{prune_one-view}
use time_series_engine.Window.Prepare.{find_last, prepare-last}
use time_series_engine.Window.Service.{
  WindowService, effective_project, scoped_sequence_key, sequence_prefix, window_at, prune_windows,
  new_window,
}
use time_series_engine.Window.Batch.{WindowUpdateResult, empty_result, gather, update_sequences}
use time_series_engine.Window.Commit.{
  current_start, update_metadata, check_request, started, commit_batch, finish_batch, reject_batch,
  update_window_incremental,
}
use time_series_engine.Window.Served.{
  of_sequence, Distinct, gather-of_sequence, effective_twice, updated, window_at-update_sequences,
  lookup-prune_windows,
}

scoped-effective :
    (p : ProjectId) (id : SequenceId)
    → scoped_sequence_key (effective_project p) id ≡ scoped_sequence_key p id
unfolding scoped_sequence_key
scoped-effective p id = ap (λ q. sequence_prefix q <> id) (effective_twice p)

scoped-prefix :
    (p : ProjectId) (id : SequenceId)
    → starts_with (scoped_sequence_key p id) (sequence_prefix (effective_project p)) ≡ true
unfolding scoped_sequence_key
scoped-prefix p id = starts_with-append (sequence_prefix (effective_project p)) id

if-none {ℓ} : {A : Type ℓ} (b : Bool) (o : Option A) → o ≡ none → o ≡ (if b then none else o)
if-none true o e = e
if-none false o e = refl

module _ {D : Type 0} where
  -- The empty gathering that the loop over the points begins with.
  abbrev start_gathering : ProjectId → WindowUpdateResult × Table (List (RawTimeseriesPoint D))
  start_gathering project = (empty_result project (Operation.ok 0 ""), [])

module _ {D L : Type 0} ⦃f : Floating D⦄ ⦃x : Extended D L⦄ where
  finish_batch-cases :
      (project : ProjectId) (batch : TimeseriesBatch D) (override : Option ℤ)
      (svc : WindowService D L) (failed : Option String)
      (g : WindowUpdateResult × Table (List (RawTimeseriesPoint D)))
      → ((failed ≡ none)
          × (finish_batch project batch override svc (failed, g)
              ≡ commit_batch project batch override svc g))
        ⊎ (((finish_batch project batch override svc (failed, g)).0 ≡ svc)
            × ((finish_batch project batch override svc (failed, g)).1.operation.code
                ≡ OperationCode.invalid_argument))
  unfolding finish_batch Operation.invalid_argument
  finish_batch-cases project batch override svc none g = inl (refl, refl)
  finish_batch-cases project batch override svc (some e) g = inr (refl, refl)

  outcomes :
      (project_id : ProjectId) (batch : TimeseriesBatch D) (override : Option ℤ)
      (svc : WindowService D L)
      → let project = effective_project project_id in
        let out = update_window_incremental project_id batch override svc in
        ((g : WindowUpdateResult × Table (List (RawTimeseriesPoint D))) × (gather project
              batch.points
              (start_gathering project)
            ≡ (none, g))
          × (out ≡ commit_batch project batch override svc g))
        ⊎ ((out.0 ≡ svc) × (out.1.operation.code ≡ OperationCode.invalid_argument))
  unfolding update_window_incremental reject_batch Operation.invalid_argument
  outcomes project_id batch override svc =
      let project = effective_project project_id in
      elim (Option-cases (check_request project batch override)) [
        | inr (m, e) ↦ rw (update_window_incremental, e) (inr (refl, refl))
        | inl e ↦
            let gathered = gather project batch.points (start_gathering project) in
            rw (update_window_incremental, e)
              (elim (finish_batch-cases project batch override svc gathered.0 gathered.1) [
                | inl (ok, out) ↦ inl (gathered.1, ap (λ o. (o, gathered.1)) ok, out)
                | inr bad ↦ inr bad
              ])
      ]

  commit_batch-code :
      (project : ProjectId) (batch : TimeseriesBatch D) (override : Option ℤ)
      (svc : WindowService D L) (g : WindowUpdateResult × Table (List (RawTimeseriesPoint D)))
      → (commit_batch project batch override svc g).1.operation.code ≡ OperationCode.ok
  unfolding commit_batch Operation.ok
  commit_batch-code project batch override svc g = refl

  -- A batch is taken with the code `Ok`, or it is refused with the code `InvalidArgument` and leaves
  -- every window, watermark, size and generation as it was.
  pub update_window_incremental-outcome :
      (project_id : ProjectId) (batch : TimeseriesBatch D) (override : Option ℤ)
      (svc : WindowService D L)
      → let out = update_window_incremental project_id batch override svc in
        (out.1.operation.code ≡ OperationCode.ok)
        ⊎ ((out.1.operation.code ≡ OperationCode.invalid_argument) × (out.0 ≡ svc))
  update_window_incremental-outcome project_id batch override svc =
      elim (outcomes project_id batch override svc) [
        | inl (g, _, out) ↦ inl (
            ap (λ o. o.1.operation.code) out
            ∙ commit_batch-code (effective_project project_id) batch override svc g)
        | inr (same, code) ↦ inr (code, same)
      ]

  -- The window of a sequence after an eviction on its project.
  pruned-window_at :
      (prefix key : String) (start t : Timestamp) (svc : WindowService D L)
      → starts_with key prefix ≡ true
      → IsWindow (window_at svc key)
      → view
          (window_at
            (record svc { sequence_windows = (prune_windows prefix start svc.sequence_windows).0 })
            key)
          t
        ≡ (if ltb_ℤ t start then none else view (window_at svc key) t)
  unfolding window_at new_window
  pruned-window_at prefix key start t svc own h =
      let law = lookup-prune_windows prefix key start svc.sequence_windows in
      elim (Option-cases (lookup key svc.sequence_windows)) [
        | inl e ↦ rw (law, own, e) (if-none (ltb_ℤ t start) _ refl)
        | inr (w, e) ↦
            rw (law, own, e)
              (prune_one-view start t w (subst (λ o. IsWindow (value_or o new_window)) e h))
      ]

  updated-view :
      (t : Timestamp) (incoming : Option (List (RawTimeseriesPoint D))) (w : SequenceWindow D L)
      → IsWindow w
      → IsWindow (updated incoming w)
        × (view (updated incoming w) t ≡ first_some (find_last t (value_or incoming [])) (view w t))
  updated-view t none w h = (h, refl)
  updated-view t (some ps) w h =
      let strict = is_strictly_increasing ps in
      let (sorted, last) = prepare-last t ps in
      (
        update_sequence-IsWindow strict (prepare ps) w h sorted,
        update_sequence-view t strict (prepare ps) w h sorted
            ∙ ap (λ o. first_some o (view w t)) last,
      )

  window_at-update_metadata :
      (key : String) (project : ProjectId) (ps : List (RawTimeseriesPoint D)) (override : Option ℤ)
      (svc : WindowService D L)
      → window_at (update_metadata project ps override svc) key ≡ window_at svc key
  unfolding window_at update_metadata
  window_at-update_metadata key project ps override svc = refl

  commit_batch-view :
      (project_id : ProjectId) (id : SequenceId) (t : Timestamp) (batch : TimeseriesBatch D)
      (override : Option ℤ) (svc : WindowService D L)
      (g : WindowUpdateResult × Table (List (RawTimeseriesPoint D)))
      → let project = effective_project project_id in
        let key = scoped_sequence_key project id in
        IsWindow (window_at svc key)
        → Distinct g.1
        → view (window_at (commit_batch project batch override svc g).0 key) t ≡ (
            if ltb_ℤ t (current_start project (update_metadata project batch.points override svc))
            then none
            else first_some
                (find_last t (value_or (lookup id g.1) []))
                (view (window_at svc key) t))
  unfolding commit_batch
  commit_batch-view project_id id t batch override svc g h d =
      let project = effective_project project_id in
      let key = scoped_sequence_key project id in
      let svc1 = update_metadata project batch.points override svc in
      let start = current_start project svc1 in
      let state : WindowService D L × WindowUpdateResult = (svc1, started project svc1 g.0) in
      let e =
        window_at-update_sequences project id g.1 state d
        ∙ ap (updated (lookup id g.1))
            (window_at-update_metadata key project batch.points override svc) in
      let (kept, seen) = updated-view t (lookup id g.1) (window_at svc key) h in
      pruned-window_at (sequence_prefix project) key start t (update_sequences project g.1 state).0
        (subst (λ k. starts_with k (sequence_prefix project) ≡ true)
          (sym (scoped-effective project_id id)) (scoped-prefix project_id id))
        (subst IsWindow (sym e) kept)
      ∙ ap (λ o. if ltb_ℤ t start then none else o) (ap (λ w. view w t) e ∙ seen)

  -- After an accepted batch, a sequence of the project whose window is well-formed holds for each
  -- time the last point that the batch brings for it, or else what it held before, and nothing
  -- before the start of the window.
  pub update_window_incremental-view :
      (project_id : ProjectId) (id : SequenceId) (t : Timestamp) (batch : TimeseriesBatch D)
      (override : Option ℤ) (svc : WindowService D L)
      → let project = effective_project project_id in
        let key = scoped_sequence_key project id in
        let out = update_window_incremental project_id batch override svc in
        IsWindow (window_at svc key)
        → out.1.operation.code ≡ OperationCode.ok
        → view (window_at out.0 key) t ≡ (
            if ltb_ℤ t (current_start project (update_metadata project batch.points override svc))
            then none
            else first_some
                (find_last t (of_sequence id batch.points))
                (view (window_at svc key) t))
  unfolding lookup
  update_window_incremental-view project_id id t batch override svc h success =
      elim (outcomes project_id batch override svc) [
        | inl (g, gathered, out) ↦
            let project = effective_project project_id in
            let key = scoped_sequence_key project id in
            let start = current_start project (update_metadata project batch.points override svc) in
            let (distinct, points) =
              gather-of_sequence project id batch.points (start_gathering project) g tt gathered in
            ap (λ o. view (window_at o.0 key) t) out
            ∙ commit_batch-view project_id id t batch override svc g h distinct
            ∙ ap
                (λ ps.
                  if ltb_ℤ t start
                  then none
                  else first_some (find_last t ps) (view (window_at svc key) t))
                points
        | inr (same, code) ↦ absurd (cc (success, code))
      ]

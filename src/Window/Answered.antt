-- ===== src/Window/Answered.antt =====
-- What `queryWindowData` of src/window_service.cpp answers for a sequence.
use time_series_engine.Base.{
  All, Option, none, Option-cases, is_empty, String, ◌<>◌, ◌≡◌, refl, ◌∙◌, sym, ap, subst, pos,
  leb_ℤ, ltb_ℤ, false, some, List, [], ◌∷◌, ◌++◌, str_eq, eq_iff, if◌then◌else◌, value_or, is_nil,
  Bool-cases, inl, inr,
}
use time_series_engine.Base.Assoc.{Table, lookup}
use time_series_engine.Base.Checked.{accepted}
use time_series_engine.Operation
use time_series_engine.Types.{Timestamp, ProjectId, SequenceId, OperationCode, RawTimeseriesPoint}
use time_series_engine.Window.{SequenceWindow}
use time_series_engine.Window.Lookup.{find_at}
use time_series_engine.Window.View.{view, IsOrdered}
use time_series_engine.Window.Between.{is_between, within, find_at-within, within-read_sequence}
use time_series_engine.Window.Query.{read_sequence}
use time_series_engine.Window.Service.{
  WindowService, scoped_sequence_key, effective_project, window_size, live_end_of, start_of_window,
}
use time_series_engine.Window.Answer.{
  WindowQuery, is_reversed, find_sequences, answer_query, query_window_data,
}
use time_series_engine.Window.ReadAll.{answers, lookup-read_all}

-- The window of a sequence of a project, the default one if none is named.
abbrev pub window_of {ℓ} : {W : Type ℓ} → ProjectId → SequenceId → Table W → Option W
window_of project_id id windows =
    lookup
      (((if is_empty project_id then "default" else project_id) <> String.◌∷◌ "\u{1e}" String.[])
        <> id)
      windows

-- The same points once for each time that the identifier is in a list.
abbrev pub each_time {ℓ} : {A : Type ℓ} → SequenceId → List SequenceId → List A → List A
each_time id [] points = []
each_time id (k ∷ ids) points =
    if str_eq k id then points ++ each_time id ids points else each_time id ids points

module _ {D L : Type 0} where
  abbrev pub reads_of :
      WindowQuery
      → Timestamp
      → Timestamp
      → Option (SequenceWindow D L)
      → List (RawTimeseriesPoint D)
  reads_of query start end none = []
  reads_of query start end (some w) =
      read_sequence query.preceding_points query.following_points start end w

  abbrev pub view_of : Option (SequenceWindow D L) → Timestamp → Option (RawTimeseriesPoint D)
  view_of none t = none
  view_of (some w) t = view w t

  scoped_sequence_key-eq :
      (project_id : ProjectId) (id : SequenceId) (windows : Table (SequenceWindow D L))
      → lookup (scoped_sequence_key (effective_project project_id) id) windows
        ≡ window_of project_id id windows
  unfolding scoped_sequence_key effective_project
  scoped_sequence_key-eq project_id id windows = elim (Bool-cases (is_empty project_id)) [
    | inl e ↦ rw e refl
    | inr e ↦ rw (e, e) refl
  ]

  find_sequences-answers :
      (project_id : ProjectId) (query : WindowQuery) (start end : Timestamp) (id : SequenceId)
      (svc : WindowService D L) (ids : List SequenceId)
      → All (λ k. is_empty k ≡ false) ids
      → (sequences : List (SequenceId × SequenceWindow D L)) × (find_sequences
            (effective_project project_id)
            ids
            svc
          ≡ accepted sequences)
        × (answers query start end id sequences
            ≡ each_time id ids
                (reads_of query start end (window_of project_id id svc.sequence_windows)))
  unfolding find_sequences
  find_sequences-answers project_id query start end id svc [] named = ([], refl, refl)
  find_sequences-answers project_id query start end id svc (k ∷ ids) named =
      let (rest, ran, all) = find_sequences-answers project_id query start end id svc ids named.1 in
      let project = effective_project project_id in
      let reads = reads_of query start end (window_of project_id id svc.sequence_windows) in
      let own = scoped_sequence_key-eq project_id k svc.sequence_windows in
      elim (Option-cases (lookup (scoped_sequence_key project k) svc.sequence_windows)) [
        | inl absent ↦ (
          rest,
          rw (find_sequences, named.0, ran, absent) refl,
          elim (Bool-cases (str_eq k id)) [
            | inl same ↦
                let nothing : window_of project_id id svc.sequence_windows ≡ none =
                  subst (λ j. window_of project_id j svc.sequence_windows ≡ none)
                    ((eq_iff k id).0 same) (sym own ∙ absent) in
                rw (same, nothing) (all ∙ rw nothing refl)
            | inr other ↦ rw other all
          ],
        )
        | inr (w, found) ↦ (
          (k, w) ∷ rest,
          rw (find_sequences, named.0, ran, found) refl,
          elim (Bool-cases (str_eq k id)) [
            | inl same ↦
                let here : window_of project_id id svc.sequence_windows ≡ some w =
                  subst (λ j. window_of project_id j svc.sequence_windows ≡ some w)
                    ((eq_iff k id).0 same) (sym own ∙ found) in
                rw (same, here)
                  (ap
                    (λ l.
                      read_sequence query.preceding_points query.following_points start end w ++ l)
                    (all ∙ rw here refl))
            | inr other ↦ rw other all
          ],
        )
      ]

  -- The answer of the branch that reads the windows that were found.
  answered_lem :
      (project_id : ProjectId) (query : WindowQuery) (svc : WindowService D L) (id : SequenceId)
      (watermark : Timestamp) (sequences : List (SequenceId × SequenceWindow D L))
      → let project = effective_project project_id in
        let size = window_size svc project_id in
        let end = value_or query.end_time (live_end_of watermark) in
        let start = value_or query.start_time (start_of_window (live_end_of watermark) size) in
        let result = query_window_data project_id query svc in
        is_nil query.sequence_ids ≡ false
        → find_sequences project query.sequence_ids svc ≡ accepted sequences
        → lookup project svc.watermarks ≡ some watermark
        → leb_ℤ size (pos 0) ≡ false
        → is_reversed query.start_time query.end_time ≡ false
        → ltb_ℤ end start ≡ false
        → (result.operation.code ≡ OperationCode.ok)
          × (value_or (lookup id result.data_.sequence_values) []
              ≡ answers query start end id sequences)
  unfolding query_window_data answer_query Operation.ok lookup
  answered_lem project_id query svc id watermark sequences some_ids found marked positive order
        range =
      let end = value_or query.end_time (live_end_of watermark) in
      let start =
        value_or query.start_time
          (start_of_window (live_end_of watermark) (window_size svc project_id)) in
      rw (query_window_data, some_ids, order, found, marked, positive, range)
        (refl, lookup-read_all query start end id sequences ([], 0))

  within-reads_of :
      (query : WindowQuery) (start end t : Timestamp) (o : Option (SequenceWindow D L))
      → ((w : SequenceWindow D L) → o ≡ some w → IsOrdered w)
      → find_at t (within start end (reads_of query start end o))
        ≡ (if is_between start end t then view_of o t else none)
  within-reads_of query start end t none ordered = find_at-within start end t []
  within-reads_of query start end t (some w) ordered =
      within-read_sequence query.preceding_points query.following_points start end t w
        (ordered w refl)

  pub query_window_data-answers :
      (project_id : ProjectId) (query : WindowQuery) (svc : WindowService D L) (id : SequenceId)
      (watermark : Timestamp)
      → let size = window_size svc project_id in
        let end = value_or query.end_time (live_end_of watermark) in
        let start = value_or query.start_time (start_of_window (live_end_of watermark) size) in
        let result = query_window_data project_id query svc in
        let window = window_of project_id id svc.sequence_windows in
        is_nil query.sequence_ids ≡ false
        → All (λ k. is_empty k ≡ false) query.sequence_ids
        → ((w : SequenceWindow D L) → window ≡ some w → IsOrdered w)
        → lookup (effective_project project_id) svc.watermarks ≡ some watermark
        → leb_ℤ size (pos 0) ≡ false
        → is_reversed query.start_time query.end_time ≡ false
        → ltb_ℤ end start ≡ false
        → (result.operation.code ≡ OperationCode.ok)
          × (value_or (lookup id result.data_.sequence_values) []
              ≡ each_time id query.sequence_ids (reads_of query start end window))
          × ((t : Timestamp)
              → find_at t (within start end (reads_of query start end window))
                ≡ (if is_between start end t then view_of window t else none))
  unfolding query_window_data answer_query Operation.ok lookup
  query_window_data-answers project_id query svc id watermark some_ids named ordered marked positive
        order range =
      let end = value_or query.end_time (live_end_of watermark) in
      let start =
        value_or query.start_time
          (start_of_window (live_end_of watermark) (window_size svc project_id)) in
      let window = window_of project_id id svc.sequence_windows in
      let (sequences, found, all) =
        find_sequences-answers project_id query start end id svc query.sequence_ids named in
      let (answered, read) =
        answered_lem project_id query svc id watermark sequences some_ids found marked positive
          order range in
      (answered, read ∙ all, λ t. within-reads_of query start end t window ordered)

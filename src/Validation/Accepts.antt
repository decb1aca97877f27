-- ===== src/Validation/Accepts.antt =====
-- What the checks of src/data_validation.cpp accept, stated without them.
use time_series_engine.Base.{
  ◌≤◌, ◌≡◌, ◌↔◌, ◌⊎◌, refl, true, false, none, List, [], ◌∷◌, len, is_empty, eq_iff, ◌≤ℤ◌, ◌<ℤ◌,
  arith, All,
}
use time_series_engine.Base.Checked.{first_error-none, none-first_error, All-map}
use time_series_engine.Floating.{Floating}
use time_series_engine.Types.{
  Timestamp, ProjectId, SequenceId, TimeseriesValue, TimeseriesValueKind, RawTimeseriesPoint,
  WindowData, AlignedSample, AlignedWindowData,
}
use time_series_engine.Validation.{
  max_sequence_id_bytes, max_string_value_bytes, validate_payload, validate_value,
  validate_raw_point, validate_project_point, validate_window_point, validate_window_entry,
  validate_window_data, strictly_increasing, validate_aligned_value, validate_aligned_sample,
  validate_aligned_window_data,
}

-- An identifier that is not empty and fits its column.
abbrev pub IdFits : SequenceId → Type 0
IdFits id = (is_empty id ≡ false) × (len id ≤ max_sequence_id_bytes)

-- A project field that is left out, or names the enclosing project.
abbrev pub Inherits : ProjectId → ProjectId → Type 0
Inherits project_id inner = (is_empty inner ≡ true) ⊎ (inner ≡ project_id)

module _ {D : Type 0} ⦃f : Floating D⦄ where
  -- A number that is finite, a text that fits, or any other value.
  abbrev pub IsStorable : TimeseriesValue D → Type 0
  IsStorable (TimeseriesValue.double d) = f.is_finite d ≡ true
  IsStorable (TimeseriesValue.int64 i) = Unit
  IsStorable (TimeseriesValue.boolean b) = Unit
  IsStorable (TimeseriesValue.text s) = len s ≤ max_string_value_bytes

  payload_iff : (v : TimeseriesValue D) → (validate_payload v ≡ none) ↔ IsStorable v
  unfolding validate_payload
  payload_iff (TimeseriesValue.double d) = ground arith
  payload_iff (TimeseriesValue.int64 i) = ground arith
  payload_iff (TimeseriesValue.boolean b) = ground arith
  payload_iff (TimeseriesValue.text s) = ground arith

  value_iff :
      (v : TimeseriesValue D) → (validate_value v TimeseriesValueKind.unknown ≡ none) ↔ IsStorable v
  unfolding validate_value
  value_iff v = payload_iff v

  -- A point under its key in a window.
  pub record PointOk (project_id : ProjectId) (key : SequenceId) (p : RawTimeseriesPoint D)
      : Type 0 where
    pub keyed : p.sequence_id ≡ key
    pub fits : IdFits p.sequence_id
    pub inherits : Inherits project_id p.project_id
    pub storable : IsStorable p.value

  window_point_sound :
      (project_id : ProjectId) (key : SequenceId) (p : RawTimeseriesPoint D)
      → validate_window_point project_id key p ≡ none
      → PointOk project_id key p
  unfolding validate_window_point validate_project_point validate_raw_point
  window_point_sound project_id key p h =
      ground (arith, eq_iff p.sequence_id key, eq_iff p.project_id project_id, value_iff p.value)

  window_point_complete :
      (project_id : ProjectId) (key : SequenceId) (p : RawTimeseriesPoint D)
      → PointOk project_id key p
      → validate_window_point project_id key p ≡ none
  unfolding validate_window_point validate_project_point validate_raw_point
  window_point_complete project_id key p h =
      ground (arith, eq_iff p.sequence_id key, eq_iff p.project_id project_id, value_iff p.value)

  abbrev pub EntryOk : ProjectId → SequenceId × List (RawTimeseriesPoint D) → Type 0
  EntryOk project_id (key, points) = IdFits key × All (PointOk project_id key) points

  entry_sound :
      (project_id : ProjectId) (e : SequenceId × List (RawTimeseriesPoint D))
      → validate_window_entry project_id e ≡ none
      → EntryOk project_id e
  unfolding validate_window_entry
  entry_sound project_id (key, points) h = (
    (ground arith, ground arith),
    All-map (window_point_sound project_id key) points (first_error-none _ points (ground arith)),
  )

  entry_complete :
      (project_id : ProjectId) (e : SequenceId × List (RawTimeseriesPoint D))
      → EntryOk project_id e
      → validate_window_entry project_id e ≡ none
  unfolding validate_window_entry
  entry_complete project_id (key, points) (fits, all) =
      let body =
        none-first_error (validate_window_point project_id key) points
          (All-map (window_point_complete project_id key) points all) in
      ground arith

  pub record WindowOk (project_id : ProjectId) (w : WindowData D) : Type 0 where
    pub inherits : Inherits project_id w.project_id
    pub ordered : w.window_start_time ≤ℤ w.window_end_time
    pub entries : All (EntryOk project_id) w.sequence_values

  -- A window passes exactly when its project is left out or is the request's, its bounds are in
  -- order, and under each key, which is an identifier that fits, every point has that identifier,
  -- names no other project and holds a value that can be stored.
  pub validate_window_data-WindowOk :
      (project_id : ProjectId) (w : WindowData D)
      → (validate_window_data project_id w ≡ none) ↔ WindowOk project_id w
  unfolding validate_window_data
  validate_window_data-WindowOk project_id w = (
    (λ h. record {
      inherits = ground (arith, eq_iff w.project_id project_id);
      ordered = ground (arith, eq_iff w.project_id project_id);
      entries =
          All-map (entry_sound project_id) w.sequence_values
            (first_error-none _ w.sequence_values (ground arith));
    }),
    (λ h.
        let body =
          none-first_error (validate_window_entry project_id) w.sequence_values
            (All-map (entry_complete project_id) w.sequence_values h.entries) in
        ground (arith, eq_iff w.project_id project_id)),
  )

  -- Every sample is earlier than all that follow it.
  abbrev pub Increasing : List (AlignedSample D) → Type 0
  Increasing [] = Unit
  Increasing (a ∷ rest) = All (λ s. a.time <ℤ s.time) rest × Increasing rest

  later-All :
      (t u : Timestamp) (xs : List (AlignedSample D))
      → t <ℤ u
      → All (λ s. u <ℤ s.time) xs
      → All (λ s. t <ℤ s.time) xs
  later-All t u [] h a = tt
  later-All t u (x ∷ xs) h a = (omega arith, later-All t u xs h a.1)

  Increasing-sound : (xs : List (AlignedSample D)) → strictly_increasing xs ≡ true → Increasing xs
  unfolding strictly_increasing
  Increasing-sound [] h = tt
  Increasing-sound (a ∷ []) h = (tt, tt)
  Increasing-sound (a ∷ b ∷ rest) h =
      let tail = Increasing-sound (b ∷ rest) (ground arith) in
      let first : a.time <ℤ b.time = ground arith in
      ((first, later-All a.time b.time rest first tail.0), tail)

  Increasing-complete :
      (xs : List (AlignedSample D)) → Increasing xs → strictly_increasing xs ≡ true
  unfolding strictly_increasing
  Increasing-complete [] h = refl
  Increasing-complete (a ∷ []) h = refl
  Increasing-complete (a ∷ b ∷ rest) h = ground (arith, Increasing-complete (b ∷ rest) h.1)

  abbrev pub AlignedValueOk : SequenceId × TimeseriesValue D → Type 0
  AlignedValueOk (id, value) = IdFits id × IsStorable value

  aligned_value_sound :
      (e : SequenceId × TimeseriesValue D) → validate_aligned_value e ≡ none → AlignedValueOk e
  unfolding validate_aligned_value
  aligned_value_sound (id, value) h = ground (arith, value_iff value)

  aligned_value_complete :
      (e : SequenceId × TimeseriesValue D) → AlignedValueOk e → validate_aligned_value e ≡ none
  unfolding validate_aligned_value
  aligned_value_complete (id, value) h = ground (arith, value_iff value)

  pub record AlignedOk (project_id : ProjectId) (w : AlignedWindowData D) : Type 0 where
    pub inherits : Inherits project_id w.project_id
    pub ordered : w.window_start_time ≤ℤ w.window_end_time
    pub increasing : Increasing w.samples
    pub values : All (λ s. All AlignedValueOk s.values) w.samples

  -- An aligned window passes exactly when its project is left out or is the request's, its bounds
  -- are in order, each sample is earlier than all later ones, and every value stands under an
  -- identifier that fits and can be stored.
  pub validate_aligned_window_data-AlignedOk :
      (project_id : ProjectId) (w : AlignedWindowData D)
      → (validate_aligned_window_data project_id w ≡ none) ↔ AlignedOk project_id w
  unfolding validate_aligned_window_data validate_aligned_sample
  validate_aligned_window_data-AlignedOk project_id w = (
    (λ h. record {
      inherits = ground (arith, eq_iff w.project_id project_id);
      ordered = ground (arith, eq_iff w.project_id project_id);
      increasing = Increasing-sound w.samples (ground (arith, eq_iff w.project_id project_id));
      values =
          All-map (λ s e. All-map aligned_value_sound s.values (first_error-none _ s.values e))
            w.samples (first_error-none _ w.samples (ground arith));
    }),
    (λ h.
        let body = none-first_error validate_aligned_sample w.samples (
          All-map (λ s e. none-first_error _ s.values (All-map aligned_value_complete s.values e))
            w.samples h.values) in
        ground (arith, eq_iff w.project_id project_id, Increasing-complete w.samples h.increasing)),
  )

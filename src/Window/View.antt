-- ===== src/Window/View.antt =====
-- One sequence's window of src/window_service.cpp as a map from times to points: the corrections
-- in the side buffer first, then the active points of the vector. What the representation keeps.
use time_series_engine.Base.{
  ℕ, ◌≤◌, zero, suc, ◌≡◌, refl, ◌∙◌, sym, ap, subst, false, Option, List, [], ◌∷◌, drop, map,
  length, is_nil, All, arith, Bool-cases, inl, inr, leb, ◌==◌,
}
use time_series_engine.Types.{Timestamp, RawTimeseriesPoint}
use time_series_engine.Window.{SequenceWindow}
use time_series_engine.Window.Sequence.{
  compact_sequence, merged, merge_sorted_points, flush_late_points,
}
use time_series_engine.Window.Lookup.{first_some, find_at, Ascending, Ascending-drop}
use time_series_engine.Window.Merge.{find_at-merged, merged-Ascending}

module _ {D : Type 0} where
  abbrev pub late_values : List (Timestamp × RawTimeseriesPoint D) → List (RawTimeseriesPoint D)
  late_values = map (λ (e : Timestamp × RawTimeseriesPoint D). e.1)

  -- A correction stands under its own time.
  abbrev pub Keyed : List (Timestamp × RawTimeseriesPoint D) → Type 0
  Keyed = All (λ e. e.0 ≡ e.1.time)

drop_all {ℓ} : {A : Type ℓ} (n : ℕ) (xs : List A) → length xs ≤ n → drop n xs ≡ []
drop_all zero [] h = refl
drop_all zero (x ∷ xs) h = elim h [ ]
drop_all (suc n) [] h = refl
drop_all (suc n) (x ∷ xs) h = drop_all n xs (omega arith)

merged-nil : {D : Type 0} (points : List (RawTimeseriesPoint D)) → merged points [] ≡ points
unfolding merged
merged-nil points = refl

module _ {D L : Type 0} where
  abbrev pub active : SequenceWindow D L → List (RawTimeseriesPoint D)
  active w = drop w.active_begin w.points

  -- The point that the window holds for a time.
  abbrev pub view : SequenceWindow D L → Timestamp → Option (RawTimeseriesPoint D)
  view w t = first_some (find_at t (late_values w.late_points)) (find_at t (active w))

  pub record IsOrdered (w : SequenceWindow D L) : Type 0 where
    pub points : Ascending w.points
    pub late : Ascending (late_values w.late_points)
    pub keyed : Keyed w.late_points

  pub compact-points : (w : SequenceWindow D L) → (compact_sequence w).points ≡ active w
  unfolding compact_sequence
  compact-points w = elim (Bool-cases (w.active_begin == 0)) [
    | inl e ↦
        let zero_begin : w.active_begin ≡ 0 = ground arith in
        rw e (ap (λ n. drop n w.points) (sym zero_begin))
    | inr e ↦ elim (Bool-cases (leb (length w.points) w.active_begin)) [
      | inl k ↦ rw (e, k) (sym (drop_all w.active_begin w.points (ground arith)))
      | inr k ↦ rw (e, k) refl
    ]
  ]

  pub compact-begin : (w : SequenceWindow D L) → (compact_sequence w).active_begin ≡ 0
  unfolding compact_sequence
  compact-begin w = ground arith

  pub compact-late : (w : SequenceWindow D L) → (compact_sequence w).late_points ≡ w.late_points
  unfolding compact_sequence
  compact-late w = ground arith

  pub compact-view :
      (w : SequenceWindow D L) (t : Timestamp) → view (compact_sequence w) t ≡ view w t
  compact-view w t = rw (compact-late w, compact-begin w, compact-points w) refl

  pub compact-IsOrdered : (w : SequenceWindow D L) → IsOrdered w → IsOrdered (compact_sequence w)
  compact-IsOrdered w h = record {
    points =
        subst Ascending (sym (compact-points w)) (Ascending-drop w.active_begin w.points h.points);
    late = subst (λ l. Ascending (late_values l)) (sym (compact-late w)) h.late;
    keyed = subst Keyed (sym (compact-late w)) h.keyed;
  }

  -- The merge of incoming points into a window without pruned points.
  pub merge-points :
      (incoming : List (RawTimeseriesPoint D)) (w : SequenceWindow D L)
      → (merge_sorted_points incoming w).points ≡ merged (active w) incoming
  unfolding merge_sorted_points
  merge-points [] w =
      compact-points (record w { statistics_valid = false }) ∙ sym (merged-nil (active w))
  merge-points (q ∷ incoming) w =
      ap (λ points. merged points (q ∷ incoming))
        (compact-points (record w { statistics_valid = false }))

  pub merge-begin :
      (incoming : List (RawTimeseriesPoint D)) (w : SequenceWindow D L)
      → (merge_sorted_points incoming w).active_begin ≡ 0
  unfolding merge_sorted_points
  merge-begin [] w = compact-begin (record w { statistics_valid = false })
  merge-begin (q ∷ incoming) w = refl

  pub merge-late :
      (incoming : List (RawTimeseriesPoint D)) (w : SequenceWindow D L)
      → (merge_sorted_points incoming w).late_points ≡ w.late_points
  unfolding merge_sorted_points
  merge-late [] w = compact-late (record w { statistics_valid = false })
  merge-late (q ∷ incoming) w = compact-late (record w { statistics_valid = false })

  -- A merge puts the incoming points over the vector's, and leaves the side buffer in front.
  pub merge-view :
      (incoming : List (RawTimeseriesPoint D)) (w : SequenceWindow D L) (t : Timestamp)
      → IsOrdered w
      → Ascending incoming
      → view (merge_sorted_points incoming w) t
        ≡ first_some
            (find_at t (late_values w.late_points))
            (first_some (find_at t incoming) (find_at t (active w)))
  merge-view incoming w t h a =
      rw (merge-late incoming w, merge-begin incoming w, merge-points incoming w)
        (ap (first_some (find_at t (late_values w.late_points))) (
          find_at-merged t (active w) incoming (Ascending-drop w.active_begin w.points h.points) a))

  pub merge-IsOrdered :
      (incoming : List (RawTimeseriesPoint D)) (w : SequenceWindow D L)
      → IsOrdered w
      → Ascending incoming
      → IsOrdered (merge_sorted_points incoming w)
  merge-IsOrdered incoming w h a = record {
    points =
        subst Ascending (sym (merge-points incoming w)) (
          merged-Ascending (active w) incoming (Ascending-drop w.active_begin w.points h.points) a);
    late = subst (λ l. Ascending (late_values l)) (sym (merge-late incoming w)) h.late;
    keyed = subst Keyed (sym (merge-late incoming w)) h.keyed;
  }

  -- Folding the corrections into the vector changes no lookup.
  pub flush-view :
      (w : SequenceWindow D L) (t : Timestamp)
      → IsOrdered w
      → view (flush_late_points w) t ≡ view w t
  unfolding flush_late_points
  flush-view w t h = elim (Bool-cases (is_nil w.late_points)) [
    | inl e ↦ rw e refl
    | inr e ↦ rw e (
        merge-view (late_values w.late_points) (record w { late_points = [] }) t
          (record { points = h.points; late = tt; keyed = tt }) h.late)
  ]

  pub flush-IsOrdered : (w : SequenceWindow D L) → IsOrdered w → IsOrdered (flush_late_points w)
  unfolding flush_late_points
  flush-IsOrdered w h = elim (Bool-cases (is_nil w.late_points)) [
    | inl e ↦ rw e h
    | inr e ↦ rw e (
        merge-IsOrdered (late_values w.late_points) (record w { late_points = [] })
          (record { points = h.points; late = tt; keyed = tt }) h.late)
  ]

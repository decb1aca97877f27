-- ===== src/Window/Figures.antt =====
-- The running statistics of src/window_service.cpp through the operations on a sequence's window.
use time_series_engine.Base.{
  ℕ, zero, suc, ◌≤◌, ◌≡◌, refl, ◌∙◌, sym, ap, subst, Bool, true, false, not, ◌&&◌, some, List, [],
  ◌∷◌, ◌++◌, arith, Bool-cases, inl, inr, length, length-append, drop, take, is_nil, leb,
}
use time_series_engine.Floating.{Floating, Extended}
use time_series_engine.Types.{RawTimeseriesPoint}
use time_series_engine.Window.{SequenceWindow}
use time_series_engine.Window.Statistics.{
  append_value, append_statistic, remove_value, remove_statistic, remove_statistics,
}
use time_series_engine.Window.Sequence.{
  append_points, compact_sequence, merge_incoming, merge_sorted_points, flush_late_points,
  put_aside, set_aside, update_sequence, is_later, is_empty_window, late_point_flush_threshold,
}
use time_series_engine.Window.Lookup.{Ascending}
use time_series_engine.Window.View.{
  active, late_values, compact-points, compact-begin, compact-late,
}
use time_series_engine.Window.Branches.{append_statistic-points}
use time_series_engine.Window.Later.{drop-append}
use time_series_engine.Window.Counted.{IsOrder, Counted, append-Counted, remove-Counted}

pub take-drop {ℓ} : {A : Type ℓ} (n : ℕ) (xs : List A) → take n xs ++ drop n xs ≡ xs
take-drop zero xs = refl
take-drop (suc n) [] = refl
take-drop (suc n) (x ∷ xs) = ap (λ l. x ∷ l) (take-drop n xs)

module _ {D L : Type 0} ⦃f : Floating D⦄ ⦃x : Extended D L⦄ where
  -- Valid statistics are those of the active points, and no correction is aside that they miss.
  abbrev pub HasFigures : SequenceWindow D L → Type 0
  HasFigures w = w.statistics_valid ≡ true → Counted (active w) w × (w.late_points ≡ [])

  -- The statistics of two windows agree.
  abbrev pub SameFigures : SequenceWindow D L → SequenceWindow D L → Type 0
  SameFigures w w' =
      (w'.statistics_valid ≡ w.statistics_valid)
      × (w'.statistics_count ≡ w.statistics_count)
      × (w'.statistics_non_numeric_count ≡ w.statistics_non_numeric_count)
      × (w'.statistics_minimum ≡ w.statistics_minimum)
      × (w'.statistics_maximum ≡ w.statistics_maximum)

  pub same-Counted :
      (ps : List (RawTimeseriesPoint D)) (w w' : SequenceWindow D L)
      → SameFigures w w'
      → Counted ps w
      → Counted ps w'
  same-Counted ps w w' (valid, count, others, minimum, maximum) c = record {
    valid = valid ∙ c.valid;
    count = count ∙ c.count;
    others = rw others c.others;
    minimum = minimum ∙ c.minimum;
    maximum = maximum ∙ c.maximum;
  }

  append_statistic-valid :
      (p : RawTimeseriesPoint D) (w : SequenceWindow D L)
      → (append_statistic p w).statistics_valid ≡ w.statistics_valid
  unfolding append_statistic append_value
  append_statistic-valid p w = ground arith

  remove_statistic-valid :
      (p : RawTimeseriesPoint D) (w : SequenceWindow D L)
      → (remove_statistic p w).statistics_valid ≡ w.statistics_valid
  unfolding remove_statistic remove_value
  remove_statistic-valid p w = ground arith

  pub remove_statistics-valid :
      (ps : List (RawTimeseriesPoint D)) (w : SequenceWindow D L)
      → (remove_statistics ps w).statistics_valid ≡ w.statistics_valid
  unfolding remove_statistics
  remove_statistics-valid [] w = refl
  remove_statistics-valid (p ∷ ps) w =
      remove_statistics-valid ps (remove_statistic p w) ∙ remove_statistic-valid p w

  pub remove_statistics-Counted :
      (ps qs : List (RawTimeseriesPoint D)) (w : SequenceWindow D L)
      → Ascending (ps ++ qs)
      → Counted (ps ++ qs) w
      → Counted qs (remove_statistics ps w)
  unfolding remove_statistics
  remove_statistics-Counted [] qs w a c = c
  remove_statistics-Counted (p ∷ ps) qs w a c =
      remove_statistics-Counted ps qs (remove_statistic p w) a.1
        (remove-Counted p (ps ++ qs) w a.0 c)

  append_one-HasFigures :
      (o : IsOrder f) (p : RawTimeseriesPoint D) (w : SequenceWindow D L)
      → w.active_begin ≤ length w.points
      → HasFigures w
      → HasFigures
          (append_statistic p (record w { points = w.points ++ p ∷ []; latest_time = some p.time }))
  append_one-HasFigures o p w b h valid =
      let next = record w { points = w.points ++ p ∷ []; latest_time = some p.time } in
      let (points, late, begin, _) = append_statistic-points p next in
      let before : w.statistics_valid ≡ true = sym (append_statistic-valid p next) ∙ valid in
      let after = append_statistic p next in
      let grown : active after ≡ active w ++ p ∷ [] =
        ap (λ b. drop b after.points) begin
        ∙ ap (drop w.active_begin) points
        ∙ drop-append w.active_begin w.points (p ∷ []) b in
      (
        subst (λ l. Counted l after) (sym grown)
            (append-Counted o p (active w) next
              (same-Counted (active w) w next (refl, refl, refl, refl, refl) (h before).0)),
        late ∙ (h before).1,
      )

  append_points-HasFigures :
      (o : IsOrder f) (ps : List (RawTimeseriesPoint D)) (w : SequenceWindow D L)
      → w.active_begin ≤ length w.points
      → HasFigures w
      → HasFigures (append_points ps w)
  unfolding append_points
  append_points-HasFigures o [] w b h = h
  append_points-HasFigures o (p ∷ ps) w b h =
      let next = record w { points = w.points ++ p ∷ []; latest_time = some p.time } in
      let after = append_statistic p next in
      let (points, _, begin, _) = append_statistic-points p next in
      append_points-HasFigures o ps after
        (subst (λ n. n ≤ length after.points) (sym begin)
          (subst (λ l. w.active_begin ≤ length l) (sym points)
            (omega (arith, b, length-append w.points (p ∷ [])))))
        (append_one-HasFigures o p w b h)

  pub compact-SameFigures : (w : SequenceWindow D L) → SameFigures w (compact_sequence w)
  unfolding compact_sequence
  compact-SameFigures w = (ground arith, ground arith, ground arith, ground arith, ground arith)

  pub compact-HasFigures : (w : SequenceWindow D L) → HasFigures w → HasFigures (compact_sequence w)
  compact-HasFigures w h valid =
      let same = compact-SameFigures w in
      let (kept, _, _, _, _) = same in
      let whole : active (compact_sequence w) ≡ active w =
        ap (λ n. drop n (compact_sequence w).points) (compact-begin w) ∙ compact-points w in
      let (counted, none_aside) = h (sym kept ∙ valid) in
      (
        subst (λ l. Counted l (compact_sequence w)) (sym whole)
            (same-Counted (active w) w (compact_sequence w) same counted),
        compact-late w ∙ none_aside,
      )

  -- A merge leaves no valid statistics.
  merge-invalid :
      (incoming : List (RawTimeseriesPoint D)) (w : SequenceWindow D L)
      → (merge_sorted_points incoming w).statistics_valid ≡ false
  unfolding merge_sorted_points merge_incoming
  merge-invalid incoming w =
      let fresh = record w { statistics_valid = false } in
      let (kept, _, _, _, _) = compact-SameFigures fresh in
      elim (Bool-cases (is_nil incoming)) [ inl e ↦ rw e kept | inr e ↦ rw e kept ]

  flush-invalid :
      (w : SequenceWindow D L)
      → w.statistics_valid ≡ false
      → (flush_late_points w).statistics_valid ≡ false
  unfolding flush_late_points
  flush-invalid w h = elim (Bool-cases (is_nil w.late_points)) [
    | inl e ↦ rw e h
    | inr e ↦ rw e (merge-invalid (late_values w.late_points) (record w { late_points = [] }))
  ]

  set_aside-invalid :
      (incoming : List (RawTimeseriesPoint D)) (w : SequenceWindow D L)
      → (set_aside incoming w).statistics_valid ≡ false
  unfolding set_aside put_aside
  set_aside-invalid incoming w =
      let after = put_aside incoming w in
      elim (Bool-cases (leb late_point_flush_threshold (length after.late_points))) [
        | inl e ↦ rw e (flush-invalid after refl)
        | inr e ↦ rw e refl
      ]

  -- An update keeps the running statistics right: while they are called valid, the counts and the two
  -- deques are those of the active points, and no correction is in the side buffer, so that these are
  -- all the points of the window. The pruned part is inside the vector, and the comparison of finite
  -- values is an order.
  pub update_sequence-HasFigures :
      (o : IsOrder f) (strict : Bool) (incoming : List (RawTimeseriesPoint D))
      (w : SequenceWindow D L)
      → w.active_begin ≤ length w.points
      → HasFigures w
      → HasFigures (update_sequence strict incoming w).0
  unfolding update_sequence
  update_sequence-HasFigures o strict incoming w b h =
      elim (Bool-cases ((strict && not (is_nil incoming)) && is_later incoming w.latest_time)) [
        | inl e ↦ rw e (append_points-HasFigures o incoming w b h)
        | inr e ↦ elim (Bool-cases (is_empty_window w && is_nil w.late_points)) [
          | inl k ↦ rw (e, k) (λ valid. absurd (cc (valid, merge-invalid incoming w)))
          | inr k ↦ rw (e, k) (λ valid. absurd (cc (valid, set_aside-invalid incoming w)))
        ]
      ]

-- ===== src/Window/Extremes.antt =====
-- The running statistics of src/window_service.cpp after an eviction and after a rebuild, and what
-- the fronts of the two deques are.
use time_series_engine.Base.{
  ◌+◌, ◌*◌, ◌≡◌, refl, ◌∙◌, sym, ap, subst, true, false, ◌&&◌, List, [], ◌∷◌, ◌++◌, if◌then◌else◌,
  Bool-cases, inl, inr, All, length, drop, take, leb, is_nil,
}
use mathlib.Core.List.{append-nil, append_assoc}
use time_series_engine.Floating.{Floating, Extended}
use time_series_engine.Types.{Timestamp, RawTimeseriesPoint}
use time_series_engine.Window.{SequenceWindow}
use time_series_engine.Window.Points.{lower_bound, erase_late_before}
use time_series_engine.Window.Statistics.{
  append_statistic, append_statistics, reset_statistics, remove_statistics,
}
use time_series_engine.Window.Sequence.{
  pruned, compact_if_worth, prune_one, rebuild_statistics, flush_late_points, compaction_threshold,
  starts_before,
}
use time_series_engine.Window.Lookup.{first_some, find_at, Ascending, Ascending-drop}
use time_series_engine.Window.View.{
  active, late_values, view, IsOrdered, merge-late, flush-view, flush-IsOrdered,
}
use time_series_engine.Window.Branches.{append_statistic-points}
use time_series_engine.Window.Prune.{remove_statistics-fields, drop-drop}
use time_series_engine.Window.Lasting.{front-lasting}
use time_series_engine.Window.Counted.{
  IsOrder, Counted, numerics, numerics-finite, at_most, at_least, at_most-IsRanking,
  at_least-IsRanking, reset-Counted, append-Counted,
}
use time_series_engine.Window.Figures.{
  HasFigures, same-Counted, remove_statistics-valid, remove_statistics-Counted, compact-HasFigures,
  take-drop,
}

none_late {ℓ} : {A : Type ℓ} (l : List A) → is_nil l ≡ true → l ≡ []
none_late [] e = refl
none_late (a ∷ l) e = absurd (cc e)

module _ {D L : Type 0} ⦃f : Floating D⦄ ⦃x : Extended D L⦄ where
  pruned-HasFigures :
      (start : Timestamp) (w : SequenceWindow D L)
      → IsOrdered w
      → HasFigures w
      → HasFigures (pruned start w)
  unfolding pruned erase_late_before
  pruned-HasFigures start w o h valid =
      let n = lower_bound (active w) start in
      let gone = take n (active w) in
      let kept = drop n (active w) in
      let removed = remove_statistics gone w in
      let (points, _) = remove_statistics-fields gone w in
      let ordered = Ascending-drop w.active_begin w.points o.points in
      let whole = take-drop n (active w) in
      elim (Bool-cases (starts_before start w.late_points)) [
        | inl e ↦ absurd (cc (rw e at valid))
        | inr e ↦
            let still : removed.statistics_valid ≡ true = rw e at valid in
            let before : w.statistics_valid ≡ true = sym (remove_statistics-valid gone w) ∙ still in
            let counted =
              remove_statistics-Counted gone kept w (subst Ascending (sym whole) ordered)
                (subst (λ l. Counted l w) (sym whole) (h before).0) in
            let here : active (pruned start w) ≡ kept =
              ap (drop (w.active_begin + n)) points ∙ drop-drop w.active_begin n w.points in
            (
              subst (λ l. Counted l (pruned start w)) (sym here)
                  (same-Counted kept removed (pruned start w)
                    (
                      ap (λ b. if b then false else removed.statistics_valid) e,
                      refl,
                      refl,
                      refl,
                      refl,
                    )
                    counted),
              ap (erase_late_before start) (h before).1,
            )
      ]

  -- An eviction of an ordered window keeps the running statistics right: while they are called valid,
  -- the counts and the two deques are those of the points that are left, and no correction is in the
  -- side buffer.
  pub prune_one-HasFigures :
      (start : Timestamp) (w : SequenceWindow D L)
      → IsOrdered w
      → HasFigures w
      → HasFigures (prune_one start w).0
  unfolding prune_one compact_if_worth
  prune_one-HasFigures start w o h =
      let p = pruned start w in
      let kept = pruned-HasFigures start w o h in
      elim (Bool-cases
        (leb compaction_threshold p.active_begin && leb (length p.points) (p.active_begin * 2))) [
          | inl e ↦ rw e (compact-HasFigures p kept)
          | inr e ↦ rw e kept
        ]

  append_statistics-Counted :
      (o : IsOrder f) (ps qs : List (RawTimeseriesPoint D)) (w : SequenceWindow D L)
      → Counted qs w
      → Counted (qs ++ ps) (append_statistics ps w)
        × ((append_statistics ps w).points ≡ w.points)
        × ((append_statistics ps w).active_begin ≡ w.active_begin)
  unfolding append_statistics
  append_statistics-Counted o [] qs w c =
      (subst (λ l. Counted l w) (sym (append-nil qs)) c, refl, refl)
  append_statistics-Counted o (p ∷ ps) qs w c =
      let next = append_statistic p w in
      let (points, _, begin, _) = append_statistic-points p w in
      let (all, points', begin') =
        append_statistics-Counted o ps (qs ++ p ∷ []) next (append-Counted o p qs w c) in
      (
        subst (λ l. Counted l (append_statistics ps next)) (append_assoc qs (p ∷ []) ps) all,
        points' ∙ points,
        begin' ∙ begin,
      )

  append_statistics-late :
      (ps : List (RawTimeseriesPoint D)) (w : SequenceWindow D L)
      → (append_statistics ps w).late_points ≡ w.late_points
  unfolding append_statistics
  append_statistics-late [] w = refl
  append_statistics-late (p ∷ ps) w =
      let (_, late, _, _) = append_statistic-points p w in
      append_statistics-late ps (append_statistic p w) ∙ late

  flush-late : (w : SequenceWindow D L) → (flush_late_points w).late_points ≡ []
  unfolding flush_late_points
  flush-late w = elim (Bool-cases (is_nil w.late_points)) [
    | inl e ↦ rw e (none_late w.late_points e)
    | inr e ↦ rw e (merge-late (late_values w.late_points) (record w { late_points = [] }))
  ]

  -- The points of a window in the order of time, each time once: what it holds for each time.
  abbrev pub AreHeld : SequenceWindow D L → List (RawTimeseriesPoint D) → Type 0
  AreHeld w ps = Ascending ps × ((t : Timestamp) → find_at t ps ≡ view w t)

  pub active-AreHeld :
      (w : SequenceWindow D L) → IsOrdered w → w.late_points ≡ [] → AreHeld w (active w)
  active-AreHeld w h none_aside = (
    Ascending-drop w.active_begin w.points h.points,
    λ t. ap (λ l. first_some (find_at t (late_values l)) (find_at t (active w))) (sym none_aside),
  )

  -- A rebuild of an ordered window leaves no correction in the side buffer, and makes the statistics
  -- valid and, whatever they were before, those of the active points; these are in the order of time
  -- without repetition and have for each time the point that the window held before, corrections
  -- included. The comparison of finite values is an order.
  pub rebuild_statistics-Counted :
      (o : IsOrder f) (w : SequenceWindow D L)
      → IsOrdered w
      → Counted (active (rebuild_statistics w)) (rebuild_statistics w)
        × ((rebuild_statistics w).late_points ≡ [])
        × AreHeld w (active (rebuild_statistics w))
  unfolding rebuild_statistics reset_statistics
  rebuild_statistics-Counted o w h =
      let flushed = flush_late_points w in
      let start = reset_statistics flushed in
      let (all, points, begin) =
        append_statistics-Counted o (active flushed) [] start (reset-Counted flushed) in
      let same : active (rebuild_statistics w) ≡ active flushed =
        ap (λ b. drop b (rebuild_statistics w).points) begin
        ∙ ap (drop flushed.active_begin) points in
      let (ordered, found) = active-AreHeld flushed (flush-IsOrdered w h) (flush-late w) in
      (
        subst (λ l. Counted l (rebuild_statistics w)) (sym same) all,
        append_statistics-late (active flushed) start ∙ flush-late w,
        subst (AreHeld w) (sym same) (ordered, λ t. found t ∙ flush-view w t h),
      )

  -- Right statistics have the least value of the points at the front of the one deque, and the
  -- greatest at the front of the other.
  pub fronts-extreme :
      (o : IsOrder f) (ps : List (RawTimeseriesPoint D)) (w : SequenceWindow D L)
      (low high : Timestamp × D) (lows highs : List (Timestamp × D))
      → Counted ps w
      → w.statistics_minimum ≡ low ∷ lows
      → w.statistics_maximum ≡ high ∷ highs
      → All (λ e. f.le low.1 e.1 ≡ true) (numerics ps)
        × All (λ e. f.le e.1 high.1 ≡ true) (numerics ps)
  fronts-extreme o ps w low high lows highs c e e' = (
    front-lasting f.is_finite (at_most f) (numerics ps) low lows (at_most-IsRanking f o)
        (numerics-finite o ps) (sym c.minimum ∙ e),
    front-lasting f.is_finite (at_least f) (numerics ps) high highs (at_least-IsRanking f o)
        (numerics-finite o ps) (sym c.maximum ∙ e'),
  )

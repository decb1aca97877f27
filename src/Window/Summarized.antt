-- ===== src/Window/Summarized.antt =====
-- What `queryWindowStatistics` of src/window_service.cpp reports of a window.
use time_series_engine.Base.{
  ℕ, ◌≡◌, refl, ◌∙◌, sym, ap, subst, true, not, List, [], ◌∷◌, if◌then◌else◌, arith, Bool-cases,
  inl, inr, All, length, ◌==◌,
}
use time_series_engine.Floating.{Floating, Extended}
use time_series_engine.Types.{Timestamp, SequenceId}
use time_series_engine.Window.{SequenceWindow}
use time_series_engine.Window.Sequence.{rebuild_statistics}
use time_series_engine.Window.View.{active, IsOrdered}
use time_series_engine.Window.Counted.{IsOrder, Counted, numerics}
use time_series_engine.Window.Figures.{HasFigures}
use time_series_engine.Window.Extremes.{
  AreHeld, active-AreHeld, rebuild_statistics-Counted, fronts-extreme,
}
use time_series_engine.Window.Summary.{
  SequenceWindowStatistics, summary, fronts, summarize_window, refreshed,
}

module _ {D : Type 0} ⦃f : Floating D⦄ where
  -- Of a summary, both deques have a front, and the fronts are what it reports.
  fronts-summary :
      (id : SequenceId) (count : ℕ) (average : D) (lows highs : List (Timestamp × D))
      (s : SequenceWindowStatistics D)
      → fronts id count average lows highs ≡ summary s
      → (low : Timestamp × D) × (high : Timestamp × D) × (lows' : List (Timestamp × D))
        × (highs' : List (Timestamp × D)) × (lows ≡ low ∷ lows')
        × (highs ≡ high ∷ highs')
        × (low.1 ≡ s.minimum)
        × (high.1 ≡ s.maximum)
        × (count ≡ s.count)
  unfolding fronts
  fronts-summary id count average [] highs s h = absurd (cc h)
  fronts-summary id count average (low ∷ lows) [] s h = absurd (cc h)
  fronts-summary id count average (low ∷ lows) (high ∷ highs) s h =
      (low, high, lows, highs, refl, refl, ground arith, ground arith, ground arith)

module _ {D L : Type 0} ⦃f : Floating D⦄ ⦃x : Extended D L⦄ where
  refreshed-Counted :
      (o : IsOrder f) (w : SequenceWindow D L)
      → IsOrdered w
      → HasFigures w
      → Counted (active (refreshed w)) (refreshed w) × AreHeld w (active (refreshed w))
  unfolding refreshed
  refreshed-Counted o w g h = elim (Bool-cases w.statistics_valid) [
    | inl e ↦
        let (counted, none_aside) = h e in
        subst (λ v. Counted (active v) v × AreHeld w (active v))
          (sym (ap (λ b. if not b then rebuild_statistics w else w) e))
          (counted, active-AreHeld w g none_aside)
    | inr e ↦
        let (counted, _, held) = rebuild_statistics-Counted o w g in
        subst (λ v. Counted (active v) v × AreHeld w (active v))
          (sym (ap (λ b. if not b then rebuild_statistics w else w) e)) (counted, held)
  ]

  -- A summary is given only where every value is a finite number.
  summarize_window-fronts :
      (id : SequenceId) (r : SequenceWindow D L) (s : SequenceWindowStatistics D)
      → summarize_window id r ≡ summary s
      → (r.statistics_non_numeric_count ≡ 0)
        × (fronts id r.statistics_count
              (x.average r.statistics_sum r.statistics_count)
              r.statistics_minimum
              r.statistics_maximum
            ≡ summary s)
  unfolding summarize_window
  summarize_window-fronts id r s h = elim (Bool-cases (r.statistics_non_numeric_count == 0)) [
    | inr e ↦ absurd (cc (rw e at h))
    | inl e ↦
        let zero_count : r.statistics_non_numeric_count ≡ 0 = ground arith in
        elim (Bool-cases (r.statistics_count == 0)) [
          | inl k ↦ absurd (cc (rw (e, k) at h))
          | inr k ↦ (zero_count, rw (e, k) at h)
        ]
  ]

  -- The statistics that a query reports of an ordered window, whose running statistics were right
  -- while valid, are those of the points that the window held, corrections included: a list in the
  -- order of time, without repetition, that has for each time the point of the window. All of them are
  -- finite numbers, as many as reported, none below the minimum and none above the maximum. The
  -- comparison of finite values is an order.
  pub summarize_window-extremes :
      (o : IsOrder f) (id : SequenceId) (w : SequenceWindow D L) (s : SequenceWindowStatistics D)
      → IsOrdered w
      → HasFigures w
      → summarize_window id (refreshed w) ≡ summary s
      → let ps = active (refreshed w) in
        AreHeld w ps
        × (s.count ≡ length ps)
        × (length (numerics ps) ≡ length ps)
        × All (λ e. f.le s.minimum e.1 ≡ true) (numerics ps)
        × All (λ e. f.le e.1 s.maximum ≡ true) (numerics ps)
  unfolding summarize_window
  summarize_window-extremes o id w s g h e =
      let r = refreshed w in
      let (c, held) = refreshed-Counted o w g h in
      let (all_numeric, given) = summarize_window-fronts id r s e in
      let (low, high, lows, highs, el, eh, least, most, counted) =
        fronts-summary id r.statistics_count (x.average r.statistics_sum r.statistics_count)
          r.statistics_minimum r.statistics_maximum s given in
      let (below, above) = fronts-extreme o (active r) r low high lows highs c el eh in
      (
        held,
        sym counted ∙ c.count ∙ omega (arith, c.others, all_numeric),
        omega (arith, c.others, all_numeric),
        subst (λ m. All (λ e. f.le m e.1 ≡ true) (numerics (active r))) least below,
        subst (λ m. All (λ e. f.le e.1 m ≡ true) (numerics (active r))) most above,
      )

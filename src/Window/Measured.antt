-- ===== src/Window/Measured.antt =====
-- What `queryWindowStatistics` of src/window_service.cpp reports of a window after a run of batches.
use time_series_engine.Base.{◌≡◌, ◌∙◌, true, List, [], ◌∷◌, All, length}
use time_series_engine.Floating.{Floating, Extended}
use time_series_engine.Types.{Timestamp, SequenceId}
use time_series_engine.Window.{SequenceWindow}
use time_series_engine.Window.Points.{is_strictly_increasing}
use time_series_engine.Window.Sequence.{prepare, update_sequence}
use time_series_engine.Window.Lookup.{find_at, Ascending}
use time_series_engine.Window.View.{view, active}
use time_series_engine.Window.Invariant.{IsWindow}
use time_series_engine.Window.Update.{update_sequence-IsWindow}
use time_series_engine.Window.Prepare.{prepare-last}
use time_series_engine.Window.Refinement.{
  Arrival, apply_arrival, apply_arrivals, arrive_all, apply_arrival-IsWindow, apply_arrivals-view,
}
use time_series_engine.Window.Counted.{IsOrder, numerics}
use time_series_engine.Window.Figures.{HasFigures, update_sequence-HasFigures}
use time_series_engine.Window.Extremes.{prune_one-HasFigures}
use time_series_engine.Window.Summary.{
  SequenceWindowStatistics, summary, summarize_window, refreshed,
}
use time_series_engine.Window.Summarized.{summarize_window-extremes}

module _ {D L : Type 0} ⦃f : Floating D⦄ ⦃x : Extended D L⦄ (o : IsOrder f) where
  apply_arrival-HasFigures :
      (a : Arrival D) (w : SequenceWindow D L)
      → IsWindow w
      → HasFigures w
      → HasFigures (apply_arrival a w)
  unfolding apply_arrival
  apply_arrival-HasFigures a w g h =
      let strict = is_strictly_increasing a.incoming in
      prune_one-HasFigures a.window_start (update_sequence strict (prepare a.incoming) w).0
        (update_sequence-IsWindow strict (prepare a.incoming) w g
          (prepare-last a.window_start a.incoming).0).ordered
        (update_sequence-HasFigures o strict (prepare a.incoming) w g.begin h)

  apply_arrivals-kept :
      (rest : List (Arrival D)) (w : SequenceWindow D L)
      → IsWindow w
      → HasFigures w
      → IsWindow (apply_arrivals rest w) × HasFigures (apply_arrivals rest w)
  apply_arrivals-kept [] w g h = (g, h)
  apply_arrivals-kept (a ∷ rest) w g h =
      apply_arrivals-kept rest (apply_arrival a w) (apply_arrival-IsWindow a w g)
        (apply_arrival-HasFigures a w g h)

  pub summarize_window-arrivals :
      (id : SequenceId) (rest : List (Arrival D)) (w : SequenceWindow D L)
      (s : SequenceWindowStatistics D)
      → IsWindow w
      → HasFigures w
      → summarize_window id (refreshed (apply_arrivals rest w)) ≡ summary s
      → let ps = active (refreshed (apply_arrivals rest w)) in
        Ascending ps
        × ((t : Timestamp) → find_at t ps ≡ arrive_all rest (view w) t)
        × (s.count ≡ length ps)
        × (length (numerics ps) ≡ length ps)
        × All (λ e. f.le s.minimum e.1 ≡ true) (numerics ps)
        × All (λ e. f.le e.1 s.maximum ≡ true) (numerics ps)
  summarize_window-arrivals id rest w s g h e =
      let (g', h') = apply_arrivals-kept rest w g h in
      let ((ordered, held), count, numeric, least, most) =
        summarize_window-extremes o id (apply_arrivals rest w) s g'.ordered h' e in
      (ordered, λ t. held t ∙ apply_arrivals-view t rest w g, count, numeric, least, most)

-- ===== src/Window/Refinement.antt =====
-- One batch's work on one sequence in `updateWindowIncremental` of src/window_service.cpp, and a run
-- of batches, against a map from times to points that knows no vector, side buffer or compaction.
use time_series_engine.Base.{◌≡◌, refl, ◌∙◌, ap, Option, none, List, [], ◌∷◌, if◌then◌else◌, ltb_ℤ}
use time_series_engine.Floating.{Floating, Extended}
use time_series_engine.Types.{Timestamp, RawTimeseriesPoint}
use time_series_engine.Window.{SequenceWindow}
use time_series_engine.Window.Points.{is_strictly_increasing}
use time_series_engine.Window.Sequence.{prepare, update_sequence, prune_one}
use time_series_engine.Window.Lookup.{first_some}
use time_series_engine.Window.View.{view}
use time_series_engine.Window.Invariant.{IsWindow}
use time_series_engine.Window.Update.{update_sequence-view, update_sequence-IsWindow}
use time_series_engine.Window.Prune.{prune_one-view, prune_one-IsWindow}
use time_series_engine.Window.Prepare.{find_last, prepare-last}

-- What a batch brings to a sequence, and the start of the window after it.
pub record Arrival (D : Type 0) : Type 0 where
  pub incoming : List (RawTimeseriesPoint D)
  pub window_start : Timestamp

module _ {D L : Type 0} ⦃f : Floating D⦄ ⦃x : Extended D L⦄ where
  -- A sequence that the batch brings points for: they are prepared, written, and what is too old
  -- is evicted.
  unfoldable pub apply_arrival : Arrival D → SequenceWindow D L → SequenceWindow D L
  unfolding prepare update_sequence prune_one
  apply_arrival a w =
      (prune_one a.window_start
        (update_sequence (is_strictly_increasing a.incoming) (prepare a.incoming) w).0).0

  abbrev pub apply_arrivals : List (Arrival D) → SequenceWindow D L → SequenceWindow D L
  apply_arrivals [] w = w
  apply_arrivals (a ∷ rest) w = apply_arrivals rest (apply_arrival a w)

module _ {D : Type 0} where
  -- The abstract batch: the last incoming point of a time, or what was there, from the start on.
  abbrev pub arrive :
      Arrival D
      → (Timestamp → Option (RawTimeseriesPoint D))
      → Timestamp
      → Option (RawTimeseriesPoint D)
  arrive a m t = if ltb_ℤ t a.window_start then none else first_some (find_last t a.incoming) (m t)

  abbrev pub arrive_all :
      List (Arrival D)
      → (Timestamp → Option (RawTimeseriesPoint D))
      → Timestamp
      → Option (RawTimeseriesPoint D)
  arrive_all [] m = m
  arrive_all (a ∷ rest) m = arrive_all rest (arrive a m)

  arrive_all-same :
      (rest : List (Arrival D)) (m n : Timestamp → Option (RawTimeseriesPoint D))
      → ((t : Timestamp) → m t ≡ n t)
      → (t : Timestamp) → arrive_all rest m t ≡ arrive_all rest n t
  arrive_all-same [] m n h t = h t
  arrive_all-same (a ∷ rest) m n h t =
      arrive_all-same rest (arrive a m) (arrive a n)
        (λ u.
          ap (λ o. if ltb_ℤ u a.window_start then none else first_some (find_last u a.incoming) o)
            (h u))
        t

module _ {D L : Type 0} ⦃f : Floating D⦄ ⦃x : Extended D L⦄ where
  apply_arrival-view :
      (t : Timestamp) (a : Arrival D) (w : SequenceWindow D L)
      → IsWindow w
      → view (apply_arrival a w) t ≡ arrive a (view w) t
  unfolding apply_arrival
  apply_arrival-view t a w h =
      let strict = is_strictly_increasing a.incoming in
      let (sorted, last) = prepare-last t a.incoming in
      prune_one-view a.window_start t (update_sequence strict (prepare a.incoming) w).0
        (update_sequence-IsWindow strict (prepare a.incoming) w h sorted)
      ∙ ap (λ o. if ltb_ℤ t a.window_start then none else o)
          (update_sequence-view t strict (prepare a.incoming) w h sorted
            ∙ ap (λ o. first_some o (view w t)) last)

  pub apply_arrival-IsWindow :
      (a : Arrival D) (w : SequenceWindow D L) → IsWindow w → IsWindow (apply_arrival a w)
  unfolding apply_arrival
  apply_arrival-IsWindow a w h =
      let strict = is_strictly_increasing a.incoming in
      prune_one-IsWindow a.window_start (update_sequence strict (prepare a.incoming) w).0 (
        update_sequence-IsWindow strict (prepare a.incoming) w h
          (prepare-last a.window_start a.incoming).0)

  -- After any run of batches, in any order of their points, a well-formed window holds for every
  -- time what the abstract map holds that takes the last point of a time and forgets what is before
  -- the start: neither the order check, the side buffer, its flushes nor the compactions can be seen.
  pub apply_arrivals-view :
      (t : Timestamp) (rest : List (Arrival D)) (w : SequenceWindow D L)
      → IsWindow w
      → view (apply_arrivals rest w) t ≡ arrive_all rest (view w) t
  apply_arrivals-view t [] w h = refl
  apply_arrivals-view t (a ∷ rest) w h =
      apply_arrivals-view t rest (apply_arrival a w) (apply_arrival-IsWindow a w h)
      ∙ arrive_all-same rest (view (apply_arrival a w)) (arrive a (view w))
          (λ u. apply_arrival-view u a w h) t

-- ===== src/Window/Watermark.antt =====
-- The watermark of a project in src/window_service.cpp, and the start of its window.
use time_series_engine.Base.{
  ◌≡◌, ◌≢◌, refl, ◌∙◌, ap, true, false, Option, none, some, List, [], ◌∷◌, eq_refl, if◌then◌else◌,
  value_or, arith, Bool-cases, inl, inr, ℤ, pos, ◌+ℤ◌, ◌-ℤ◌, ◌≤ℤ◌, ltb_ℤ, +ℤ_parts, -ℤ_parts,
  eq_of_parts, All, is_some,
}
use time_series_engine.Base.Assoc.{lookup, contains, lookup-insert}
use time_series_engine.Types.{Timestamp, ProjectId, RawTimeseriesPoint}
use time_series_engine.Window.Points.{back?}
use time_series_engine.Window.Sequence.{back_time}
use time_series_engine.Window.Service.{WindowService, min_time, max_time, start_of_window}
use time_series_engine.Window.Batch.{raise_watermark}
use time_series_engine.Window.Commit.{update_metadata}

module _ {D : Type 0} where
  raise_watermark-bounds :
      (ps : List (RawTimeseriesPoint D)) (w : Timestamp)
      → (w ≤ℤ raise_watermark true ps w) × All (λ p. p.time ≤ℤ raise_watermark true ps w) ps
  unfolding raise_watermark
  raise_watermark-bounds [] w = (omega arith, tt)
  raise_watermark-bounds (p ∷ ps) w =
      let next = if ltb_ℤ w p.time then p.time else w in
      let (up, all) = raise_watermark-bounds ps next in
      (ground (arith, up), (ground (arith, up), all))

  raise_watermark-last :
      (p : RawTimeseriesPoint D) (ps : List (RawTimeseriesPoint D)) (w : Timestamp)
      → some (raise_watermark false (p ∷ ps) w) ≡ back_time (p ∷ ps)
  unfolding raise_watermark back_time back?
  raise_watermark-last p [] w = refl
  raise_watermark-last p (q ∷ ps) w = raise_watermark-last q ps p.time

module _ {D L : Type 0} where
  metadata_watermark :
      (project : ProjectId) (ps : List (RawTimeseriesPoint D)) (override : Option ℤ)
      (svc : WindowService D L)
      → lookup project (update_metadata project ps override svc).watermarks
        ≡ some (
            raise_watermark
              (contains project svc.watermarks)
              ps
              (value_or (lookup project svc.watermarks) (pos 0)))
  unfolding update_metadata
  metadata_watermark project ps override svc =
      rw
        (
          lookup-insert project project
              (raise_watermark (contains project svc.watermarks) ps
                (value_or (lookup project svc.watermarks) (pos 0)))
              svc.watermarks,
          eq_refl project,
        )
        refl

  -- In a project that has a watermark, an update raises it to a time that is at least the old one
  -- and at least the time of every point of the batch.
  pub watermark-raised :
      (project : ProjectId) (ps : List (RawTimeseriesPoint D)) (override : Option ℤ)
      (svc : WindowService D L) (w : Timestamp)
      → lookup project svc.watermarks ≡ some w
      → (w' : Timestamp) × (lookup project (update_metadata project ps override svc).watermarks
          ≡ some w')
        × (w ≤ℤ w')
        × All (λ p. p.time ≤ℤ w') ps
  watermark-raised project ps override svc w e =
      let (up, all) = raise_watermark-bounds ps w in
      (
        raise_watermark true ps w,
        metadata_watermark project ps override svc
            ∙ ap (λ o. some (raise_watermark (is_some o) ps (value_or o (pos 0)))) e,
        up,
        all,
      )

  -- In a project without a watermark, an update sets it to the time of the last point of the batch,
  -- also where an earlier point of the batch is later in time.
  pub watermark-first_batch :
      (project : ProjectId) (p : RawTimeseriesPoint D) (ps : List (RawTimeseriesPoint D))
      (override : Option ℤ) (svc : WindowService D L)
      → lookup project svc.watermarks ≡ none
      → lookup project (update_metadata project (p ∷ ps) override svc).watermarks
        ≡ back_time (p ∷ ps)
  watermark-first_batch project p ps override svc e =
      metadata_watermark project (p ∷ ps) override svc
      ∙ ap (λ o. some (raise_watermark (is_some o) (p ∷ ps) (value_or o (pos 0)))) e
      ∙ raise_watermark-last p ps (pos 0)

not_below : (a b : ℤ) → ltb_ℤ a b ≡ false → b ≤ℤ a
not_below a b e = ground arith

-- For a watermark and a positive size in the range of 64 bits, the start of the window does not
-- leave the range, is before the watermark unless the watermark is the least time, and is exactly
-- one size away from it unless it is the least time. The test that guards it does not overflow.
pub start_of_window-bounds :
    (watermark : Timestamp) (size : ℤ)
    → min_time ≤ℤ watermark
    → watermark ≤ℤ max_time
    → pos 1 ≤ℤ size
    → size ≤ℤ max_time
    → (min_time ≤ℤ start_of_window watermark size)
      × (start_of_window watermark size ≤ℤ watermark)
      × (start_of_window watermark size ≢ min_time
          → start_of_window watermark size +ℤ size ≡ watermark)
      × (min_time ≤ℤ min_time +ℤ size)
      × (min_time +ℤ size ≤ℤ max_time)
unfolding start_of_window
start_of_window-bounds watermark size a b c d =
    let least = +ℤ_parts min_time size in
    let back = -ℤ_parts watermark size in
    let again = +ℤ_parts (watermark -ℤ size) size in
    let low : min_time ≤ℤ min_time +ℤ size = omega (arith, least) in
    let high : min_time +ℤ size ≤ℤ max_time = omega (arith, least) in
    elim (Bool-cases (ltb_ℤ watermark (min_time +ℤ size))) [
      | inl e ↦ rw e (omega arith, a, (λ ne. absurd (ne refl)), low, high)
      | inr e ↦
          let far : min_time +ℤ size ≤ℤ watermark = not_below watermark (min_time +ℤ size) e in
          rw e (
            omega (arith, far, least, back),
            omega (arith, back),
            (λ _. eq_of_parts _ _ (omega (arith, back, again))),
            low,
            high,
          )
    ]

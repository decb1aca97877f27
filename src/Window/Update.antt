-- ===== src/Window/Update.antt =====
-- `update_sequence` of src/window_service.cpp against the map that a window stands for: whichever
-- branch is taken, the incoming points are put over the map.
use time_series_engine.Base.{
  ◌≡◌, refl, ◌∙◌, sym, ap, Bool, true, not, ◌&&◌, List, [], ◌∷◌, arith, Bool-cases, inl, inr,
  is_nil,
}
use time_series_engine.Floating.{Floating, Extended}
use time_series_engine.Types.{Timestamp, RawTimeseriesPoint}
use time_series_engine.Window.{SequenceWindow}
use time_series_engine.Window.Sequence.{
  is_empty_window, is_later, merge_sorted_points, update_sequence,
}
use time_series_engine.Window.Lookup.{first_some, find_at, Ascending}
use time_series_engine.Window.View.{active, view, late_values, merge-view}
use time_series_engine.Window.Invariant.{IsWindow, merge-IsWindow}
use time_series_engine.Window.Branches.{
  append_points-view, append_points-IsWindow, set_aside-view, set_aside-IsWindow,
}
use time_series_engine.Window.Later.{is_later-Later}

pub is_nil-nil {ℓ} : {A : Type ℓ} (xs : List A) → is_nil xs ≡ true → xs ≡ []
is_nil-nil [] e = refl
is_nil-nil (x ∷ xs) e = absurd (cc e)

module _ {D L : Type 0} where
  merge-over :
      (t : Timestamp) (incoming : List (RawTimeseriesPoint D)) (w : SequenceWindow D L)
      → IsWindow w
      → Ascending incoming
      → w.late_points ≡ []
      → view (merge_sorted_points incoming w) t ≡ first_some (find_at t incoming) (view w t)
  merge-over t incoming w h a e =
      merge-view incoming w t h.ordered a
      ∙ ap
          (λ l.
            first_some (find_at t (late_values l))
              (first_some (find_at t incoming) (find_at t (active w))))
          e
      ∙ ap
          (λ l.
            first_some (find_at t incoming)
              (first_some (find_at t (late_values l)) (find_at t (active w))))
          (sym e)

module _ {D L : Type 0} ⦃f : Floating D⦄ ⦃x : Extended D L⦄ where
  -- An update is the same for every reader whichever of its three branches is taken: the window
  -- holds the incoming point for a time that has one, and what it held before for any other.
  -- Incoming points are in the order of time, and the window is well-formed.
  pub update_sequence-view :
      (t : Timestamp) (strict : Bool) (incoming : List (RawTimeseriesPoint D))
      (w : SequenceWindow D L)
      → IsWindow w
      → Ascending incoming
      → view (update_sequence strict incoming w).0 t ≡ first_some (find_at t incoming) (view w t)
  unfolding update_sequence
  update_sequence-view t strict incoming w h a =
      elim (Bool-cases ((strict && not (is_nil incoming)) && is_later incoming w.latest_time)) [
        | inl e ↦ rw e (
            append_points-view t incoming w h a
              (is_later-Later incoming w.latest_time a (ground arith)))
        | inr e ↦ elim (Bool-cases (is_empty_window w && is_nil w.late_points)) [
          | inl k ↦
              rw (e, k) (merge-over t incoming w h a (is_nil-nil w.late_points (ground arith)))
          | inr k ↦ rw (e, k) (set_aside-view t incoming w h a)
        ]
      ]

  -- An update keeps a window well-formed: vector and side buffer are in the order of time, the
  -- pruned part is inside the vector, and no point is later than the latest time.
  pub update_sequence-IsWindow :
      (strict : Bool) (incoming : List (RawTimeseriesPoint D)) (w : SequenceWindow D L)
      → IsWindow w
      → Ascending incoming
      → IsWindow (update_sequence strict incoming w).0
  unfolding update_sequence
  update_sequence-IsWindow strict incoming w h a =
      elim (Bool-cases ((strict && not (is_nil incoming)) && is_later incoming w.latest_time)) [
        | inl e ↦ rw e (
            append_points-IsWindow incoming w a
              (is_later-Later incoming w.latest_time a (ground arith)) h)
        | inr e ↦ elim (Bool-cases (is_empty_window w && is_nil w.late_points)) [
          | inl k ↦
              rw (e, k) (merge-IsWindow incoming w a h (is_nil-nil w.late_points (ground arith)))
          | inr k ↦ rw (e, k) (set_aside-IsWindow incoming w h a)
        ]
      ]

-- ===== src/Window/Bounded.antt =====
-- The side buffer of a sequence's window in src/window_service.cpp stays small.
use time_series_engine.Base.{
  ◌≡◌, ◌<◌, Bool, not, ◌&&◌, List, [], arith, leb, Bool-cases, inl, inr, is_nil, length,
}
use time_series_engine.Floating.{Floating, Extended}
use time_series_engine.Types.{RawTimeseriesPoint}
use time_series_engine.Window.{SequenceWindow}
use time_series_engine.Window.Sequence.{
  late_point_flush_threshold, is_empty_window, is_later, flush_late_points, put_aside, set_aside,
  update_sequence,
}
use time_series_engine.Window.View.{merge-late, late_values}
use time_series_engine.Window.Branches.{append_points-fields}
use time_series_engine.Window.Update.{is_nil-nil}

module _ {D L : Type 0} where
  pub flush-empties : (w : SequenceWindow D L) → (flush_late_points w).late_points ≡ []
  unfolding flush_late_points
  flush-empties w = elim (Bool-cases (is_nil w.late_points)) [
    | inl e ↦ rw e (is_nil-nil w.late_points e)
    | inr e ↦ rw e (merge-late (late_values w.late_points) (record w { late_points = [] }))
  ]

  set_aside-bound :
      (incoming : List (RawTimeseriesPoint D)) (w : SequenceWindow D L)
      → length (set_aside incoming w).late_points < late_point_flush_threshold
  unfolding set_aside
  set_aside-bound incoming w =
      let after = put_aside incoming w in
      elim (Bool-cases (leb late_point_flush_threshold (length after.late_points))) [
        | inl e ↦ rw (e, flush-empties after) (omega arith)
        | inr e ↦ rw e (ground arith)
      ]

module _ {D L : Type 0} ⦃f : Floating D⦄ ⦃x : Extended D L⦄ where
  -- However many corrections arrive, an update leaves fewer than the flush threshold of 64 in the
  -- side buffer, if there were fewer before.
  pub update_sequence-late_bound :
      (strict : Bool) (incoming : List (RawTimeseriesPoint D)) (w : SequenceWindow D L)
      → length w.late_points < late_point_flush_threshold
      → length (update_sequence strict incoming w).0.late_points < late_point_flush_threshold
  unfolding update_sequence
  update_sequence-late_bound strict incoming w h =
      elim (Bool-cases ((strict && not (is_nil incoming)) && is_later incoming w.latest_time)) [
        | inl e ↦ let (_, late, _) = append_points-fields incoming w in rw (e, late) h
        | inr e ↦ elim (Bool-cases (is_empty_window w && is_nil w.late_points)) [
          | inl k ↦ rw (e, k, merge-late incoming w) h
          | inr k ↦ rw (e, k) (set_aside-bound incoming w)
        ]
      ]

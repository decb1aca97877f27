-- ===== src/Window/Invariant.antt =====
-- What holds of every sequence's window of src/window_service.cpp: points and side buffer are in the
-- order of time, and no point is later than `latest_time`. The parts of it that single steps need.
use time_series_engine.Base.{
  ◌≤◌, ◌≡◌, refl, true, false, Option, none, some, List, [], ◌∷◌, All, ◌≤ℤ◌, ltb_ℤ, if◌then◌else◌,
  arith, Bool-cases, inl, inr, length, is_nil,
}
use time_series_engine.Types.{Timestamp, RawTimeseriesPoint}
use time_series_engine.Window.{SequenceWindow}
use time_series_engine.Window.Points.{back?}
use time_series_engine.Window.Sequence.{
  back_time, raise_latest, merged, merge_incoming, merge_sorted_points, compact_sequence,
  flush_late_points,
}
use time_series_engine.Window.Lookup.{Above, Ascending, All-drop}
use time_series_engine.Window.View.{
  late_values, IsOrdered, compact-IsOrdered, merge-IsOrdered, merge-begin, merge-late,
  compact-points, compact-begin, compact-late,
}

-- No time above the latest, and none at all where there is no latest.
abbrev pub Reaches : Option Timestamp → Timestamp → Type 0
Reaches none t = ⊥
Reaches (some latest) t = t ≤ℤ latest

pub Reaches-le :
    (latest : Option Timestamp) (t u : Timestamp) → u ≤ℤ t → Reaches latest t → Reaches latest u
Reaches-le none t u h r = r
Reaches-le (some latest) t u h r = omega arith

All-is_nil {ℓ κ} : {A : Type ℓ} (P : A → Type κ) (xs : List A) → is_nil xs ≡ true → All P xs
All-is_nil P [] e = tt
All-is_nil P (x ∷ xs) e = absurd (cc e)

module _ {D : Type 0} where
  abbrev pub AllReached : Option Timestamp → List (RawTimeseriesPoint D) → Type 0
  AllReached latest = All (λ p. Reaches latest p.time)

  -- The last of ordered points is the latest.
  last-reaches :
      (p : RawTimeseriesPoint D) (ps : List (RawTimeseriesPoint D))
      → Above p.time ps
      → Ascending ps
      → AllReached (back_time (p ∷ ps)) (p ∷ ps)
  unfolding back_time back?
  last-reaches p [] above a = (omega arith, tt)
  last-reaches p (q ∷ ps) above a =
      let rest = last-reaches q ps a.0 a.1 in
      (Reaches-le (back_time (q ∷ ps)) q.time p.time (omega arith) rest.0, rest)

  back_time-AllReached :
      (ps : List (RawTimeseriesPoint D)) → Ascending ps → AllReached (back_time ps) ps
  back_time-AllReached [] a = tt
  back_time-AllReached (p ∷ ps) a = last-reaches p ps a.0 a.1

  pub raise_latest-Reaches :
      (t : Timestamp) (ps : List (RawTimeseriesPoint D)) (latest : Option Timestamp)
      → Reaches latest t
      → Reaches (raise_latest ps latest) t
  unfolding raise_latest
  raise_latest-Reaches t [] latest h = h
  raise_latest-Reaches t (p ∷ ps) none h = absurd h
  raise_latest-Reaches t (p ∷ ps) (some latest) h =
      raise_latest-Reaches t ps (some (if ltb_ℤ latest p.time then p.time else latest))
        (ground arith)

  pub raise_latest-AllReached :
      (ps : List (RawTimeseriesPoint D)) (latest : Option Timestamp)
      → AllReached (raise_latest ps latest) ps
  unfolding raise_latest
  raise_latest-AllReached [] latest = tt
  raise_latest-AllReached (p ∷ ps) none = (
    raise_latest-Reaches p.time ps (some p.time) (omega arith),
    raise_latest-AllReached ps (some p.time),
  )
  raise_latest-AllReached (p ∷ ps) (some latest) =
      let next = if ltb_ℤ latest p.time then p.time else latest in
      (
        raise_latest-Reaches p.time ps (some next) (ground arith),
        raise_latest-AllReached ps (some next),
      )

module _ {D L : Type 0} where
  pub record IsWindow (w : SequenceWindow D L) : Type 0 where
    pub ordered : IsOrdered w
    pub begin : w.active_begin ≤ length w.points
    pub reached : AllReached w.latest_time w.points
    pub late_reached : AllReached w.latest_time (late_values w.late_points)

  compact-latest : (w : SequenceWindow D L) → (compact_sequence w).latest_time ≡ w.latest_time
  unfolding compact_sequence
  compact-latest w = ground arith

  pub compact-IsWindow : (w : SequenceWindow D L) → IsWindow w → IsWindow (compact_sequence w)
  compact-IsWindow w h = record {
    ordered = compact-IsOrdered w h.ordered;
    begin = rw (compact-begin w) (omega arith);
    reached =
        rw (compact-latest w, compact-points w) (All-drop _ w.active_begin w.points h.reached);
    late_reached = rw (compact-latest w, compact-late w) h.late_reached;
  }

  merge_incoming-reached :
      (incoming : List (RawTimeseriesPoint D)) (w : SequenceWindow D L)
      → Ascending (merge_incoming incoming w).points
      → AllReached (merge_incoming incoming w).latest_time (merge_incoming incoming w).points
  unfolding merge_incoming
  merge_incoming-reached incoming w a = elim (Bool-cases (is_nil (merged w.points incoming))) [
    | inl e ↦ All-is_nil _ (merged w.points incoming) e
    | inr e ↦ rw e (back_time-AllReached (merged w.points incoming) a)
  ]

  merge-reached :
      (incoming : List (RawTimeseriesPoint D)) (w : SequenceWindow D L)
      → IsWindow w
      → Ascending (merge_sorted_points incoming w).points
      → AllReached
          (merge_sorted_points incoming w).latest_time
          (merge_sorted_points incoming w).points
  unfolding merge_sorted_points
  merge-reached [] w h a =
      let fresh = record w { statistics_valid = false } in
      rw (compact-latest fresh, compact-points fresh) (All-drop _ w.active_begin w.points h.reached)
  merge-reached (q ∷ incoming) w h a =
      merge_incoming-reached (q ∷ incoming)
        (compact_sequence (record w { statistics_valid = false })) a

  -- A merge into a window without a side buffer.
  pub merge-IsWindow :
      (incoming : List (RawTimeseriesPoint D)) (w : SequenceWindow D L)
      → Ascending incoming
      → IsWindow w
      → w.late_points ≡ []
      → IsWindow (merge_sorted_points incoming w)
  merge-IsWindow incoming w a h e = record {
    ordered = merge-IsOrdered incoming w h.ordered a;
    begin = rw (merge-begin incoming w) (omega arith);
    reached = merge-reached incoming w h (merge-IsOrdered incoming w h.ordered a).points;
    late_reached = rw (merge-late incoming w, e) tt;
  }

  pub flush-IsWindow : (w : SequenceWindow D L) → IsWindow w → IsWindow (flush_late_points w)
  unfolding flush_late_points
  flush-IsWindow w h = elim (Bool-cases (is_nil w.late_points)) [
    | inl e ↦ rw e h
    | inr e ↦ rw e (
        merge-IsWindow (late_values w.late_points) (record w { late_points = [] }) h.ordered.late
          (record {
            ordered = record { points = h.ordered.points; late = tt; keyed = tt };
            begin = h.begin;
            reached = h.reached;
            late_reached = tt;
          })
          refl)
  ]

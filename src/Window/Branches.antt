-- ===== src/Window/Branches.antt =====
-- The branches of `update_sequence` in src/window_service.cpp, one by one, against the map that a window
-- stands for.
use time_series_engine.Base.{
  ◌≡◌, refl, ◌∙◌, sym, ap, some, List, [], ◌∷◌, ◌++◌, All, arith, Bool-cases, inl, inr, length,
  length-append, leb, All-append,
}
use mathlib.Core.List.{append-nil, append_assoc}
use time_series_engine.Base.Checked.{All-map}
use time_series_engine.Floating.{Floating, Extended}
use time_series_engine.Types.{Timestamp, RawTimeseriesPoint}
use time_series_engine.Window.{SequenceWindow}
use time_series_engine.Window.Statistics.{append_statistic, append_value}
use time_series_engine.Window.Sequence.{
  late_point_flush_threshold, append_points, put_aside, set_aside,
}
use time_series_engine.Window.Lookup.{first_some, find_at, find_at-append, Ascending, All-drop}
use time_series_engine.Window.View.{late_values, active, view, flush-view}
use time_series_engine.Window.Aside.{
  insert_all_late-Keyed, insert_all_late-Ascending, insert_all_late-All, find_at-insert_all_late,
}
use time_series_engine.Window.Invariant.{
  IsWindow, raise_latest-Reaches, raise_latest-AllReached, flush-IsWindow,
}
use time_series_engine.Window.Later.{
  Later, Reaches-Later, first_some_assoc, drop-append, append_one-Ascending, appended-first,
}

module _ {D L : Type 0} where
  put_aside-IsWindow :
      (ps : List (RawTimeseriesPoint D)) (w : SequenceWindow D L)
      → IsWindow w
      → Ascending ps
      → IsWindow (put_aside ps w)
  unfolding put_aside
  put_aside-IsWindow ps w h a = record {
    ordered = record {
      points = h.ordered.points;
      late = insert_all_late-Ascending ps w.late_points h.ordered.keyed h.ordered.late;
      keyed = insert_all_late-Keyed ps w.late_points h.ordered.keyed;
    };
    begin = h.begin;
    reached = All-map (λ p r. raise_latest-Reaches p.time ps w.latest_time r) w.points h.reached;
    late_reached =
        insert_all_late-All _ ps w.late_points (raise_latest-AllReached ps w.latest_time) (
          All-map (λ p r. raise_latest-Reaches p.time ps w.latest_time r)
            (late_values w.late_points) h.late_reached);
  }

  put_aside-view :
      (t : Timestamp) (ps : List (RawTimeseriesPoint D)) (w : SequenceWindow D L)
      → IsWindow w
      → Ascending ps
      → view (put_aside ps w) t ≡ first_some (find_at t ps) (view w t)
  unfolding put_aside
  put_aside-view t ps w h a =
      ap (λ o. first_some o (find_at t (active w)))
        (find_at-insert_all_late t ps w.late_points a h.ordered.keyed h.ordered.late)
      ∙ first_some_assoc (find_at t ps) (find_at t (late_values w.late_points))
          (find_at t (active w))

  pub set_aside-view :
      (t : Timestamp) (ps : List (RawTimeseriesPoint D)) (w : SequenceWindow D L)
      → IsWindow w
      → Ascending ps
      → view (set_aside ps w) t ≡ first_some (find_at t ps) (view w t)
  unfolding set_aside
  set_aside-view t ps w h a =
      let after = put_aside ps w in
      elim (Bool-cases (leb late_point_flush_threshold (length after.late_points))) [
        | inl e ↦
            rw e
              (flush-view after t (put_aside-IsWindow ps w h a).ordered ∙ put_aside-view t ps w h a)
        | inr e ↦ rw e (put_aside-view t ps w h a)
      ]

  pub set_aside-IsWindow :
      (ps : List (RawTimeseriesPoint D)) (w : SequenceWindow D L)
      → IsWindow w
      → Ascending ps
      → IsWindow (set_aside ps w)
  unfolding set_aside
  set_aside-IsWindow ps w h a =
      let after = put_aside ps w in
      elim (Bool-cases (leb late_point_flush_threshold (length after.late_points))) [
        | inl e ↦ rw e (flush-IsWindow after (put_aside-IsWindow ps w h a))
        | inr e ↦ rw e (put_aside-IsWindow ps w h a)
      ]

module _ {D L : Type 0} ⦃f : Floating D⦄ ⦃x : Extended D L⦄ where
  -- The statistics do not touch the points.
  pub append_statistic-points :
      (p : RawTimeseriesPoint D) (w : SequenceWindow D L)
      → ((append_statistic p w).points ≡ w.points)
        × ((append_statistic p w).late_points ≡ w.late_points)
        × ((append_statistic p w).active_begin ≡ w.active_begin)
        × ((append_statistic p w).latest_time ≡ w.latest_time)
  unfolding append_statistic append_value
  append_statistic-points p w = (ground arith, ground arith, ground arith, ground arith)

  pub append_points-fields :
      (ps : List (RawTimeseriesPoint D)) (w : SequenceWindow D L)
      → ((append_points ps w).points ≡ w.points ++ ps)
        × ((append_points ps w).late_points ≡ w.late_points)
        × ((append_points ps w).active_begin ≡ w.active_begin)
  unfolding append_points
  append_points-fields [] w = (sym (append-nil w.points), refl, refl)
  append_points-fields (p ∷ ps) w =
      let next = record w { points = w.points ++ p ∷ []; latest_time = some p.time } in
      let (points, late, begin, _) = append_statistic-points p next in
      let (points', late', begin') = append_points-fields ps (append_statistic p next) in
      (
        points' ∙ ap (λ l. l ++ ps) points ∙ append_assoc w.points (p ∷ []) ps,
        late' ∙ late,
        begin' ∙ begin,
      )

  same-IsWindow :
      (w w' : SequenceWindow D L)
      → (w'.points ≡ w.points)
        × (w'.late_points ≡ w.late_points)
        × (w'.active_begin ≡ w.active_begin)
        × (w'.latest_time ≡ w.latest_time)
      → IsWindow w
      → IsWindow w'
  same-IsWindow w w' (points, late, begin, latest) h = record {
    ordered = record {
      points = rw points h.ordered.points;
      late = rw late h.ordered.late;
      keyed = rw late h.ordered.keyed;
    };
    begin = rw (points, begin) h.begin;
    reached = rw (points, latest) h.reached;
    late_reached = rw (late, latest) h.late_reached;
  }

  append_one-IsWindow :
      (p : RawTimeseriesPoint D) (w : SequenceWindow D L)
      → Later w.latest_time p.time
      → IsWindow w
      → IsWindow (record w { points = w.points ++ p ∷ []; latest_time = some p.time })
  append_one-IsWindow p w later h = record {
    ordered = record {
      points = append_one-Ascending w.latest_time p w.points h.reached later h.ordered.points;
      late = h.ordered.late;
      keyed = h.ordered.keyed;
    };
    begin = omega (arith, h.begin, length-append w.points (p ∷ []));
    reached =
        All-append _ w.points (p ∷ [])
          (All-map (λ q r. Reaches-Later w.latest_time q.time p.time r later) w.points h.reached)
          (omega arith, tt);
    late_reached =
        All-map (λ q r. Reaches-Later w.latest_time q.time p.time r later)
          (late_values w.late_points) h.late_reached;
  }

  pub append_points-IsWindow :
      (ps : List (RawTimeseriesPoint D)) (w : SequenceWindow D L)
      → Ascending ps
      → All (λ p. Later w.latest_time p.time) ps
      → IsWindow w
      → IsWindow (append_points ps w)
  unfolding append_points
  append_points-IsWindow [] w a later h = h
  append_points-IsWindow (p ∷ ps) w a later h =
      let next = record w { points = w.points ++ p ∷ []; latest_time = some p.time } in
      let same = append_statistic-points p next in
      let (_, _, _, latest) = same in
      append_points-IsWindow ps (append_statistic p next) a.1 (rw latest a.0)
        (same-IsWindow next (append_statistic p next) same (append_one-IsWindow p w later.0 h))

  -- The three branches, one by one.
  pub append_points-view :
      (t : Timestamp) (ps : List (RawTimeseriesPoint D)) (w : SequenceWindow D L)
      → IsWindow w
      → Ascending ps
      → All (λ p. Later w.latest_time p.time) ps
      → view (append_points ps w) t ≡ first_some (find_at t ps) (view w t)
  append_points-view t ps w h a later =
      let (points, late, begin) = append_points-fields ps w in
      rw
        (
          points,
          late,
          begin,
          drop-append w.active_begin w.points ps h.begin,
          find_at-append t (active w) ps,
        )
        (appended-first w.latest_time t ps (late_values w.late_points) (active w) later
          h.late_reached (All-drop _ w.active_begin w.points h.reached))

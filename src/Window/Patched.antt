-- ===== src/Window/Patched.antt =====
-- What `patchDerivedSequence` of src/window_service.cpp leaves in its window.
use time_series_engine.Base.{
  ◌≡◌, refl, ◌∙◌, sym, ap, Bool, true, false, not, ◌&&◌, Option, none, some, List, [], ◌∷◌, ◌++◌,
  take, drop, length, ltb_ℤ, leb_ℤ, eqb_ℤ, if◌then◌else◌, arith, All, ◌≤ℤ◌, ◌<ℤ◌, Bool-cases, inl,
  inr,
}
use time_series_engine.Types.{Timestamp, RawTimeseriesPoint}
use time_series_engine.Window.{SequenceWindow}
use time_series_engine.Window.Points.{lower_bound, upper_bound, stable_sort, unique_times}
use time_series_engine.Window.Sequence.{compact_sequence, flush_late_points}
use time_series_engine.Window.Lookup.{
  first_some, find_at, find_at-append, find_at-Above, Above, Ascending, Ascending-append,
  Ascending-drop, Above-le,
}
use time_series_engine.Window.View.{
  view, IsOrdered, compact-view, flush-view, flush-IsOrdered, compact-IsOrdered, compact-late,
  compact-begin, merge-view,
}
use time_series_engine.Window.Bounded.{flush-empties}
use time_series_engine.Window.Ranges.{find_at-take_lower_bound, Ascending-take}
use time_series_engine.Window.Prepare.{find_last, sorted-last}
use time_series_engine.Window.Service.{max_time}
use time_series_engine.Window.Patch.{erase_range, patch_sequence}

module _ {D : Type 0} where
  find_at-drop_upper_bound :
      (s t : Timestamp) (ps : List (RawTimeseriesPoint D))
      → Ascending ps
      → find_at t (drop (upper_bound ps s) ps) ≡ (if leb_ℤ t s then none else find_at t ps)
  unfolding upper_bound
  find_at-drop_upper_bound s t [] a = ground arith
  find_at-drop_upper_bound s t (p ∷ ps) a =
      ground (arith, find_at-drop_upper_bound s t ps a.1, find_at-Above p.time t ps a.0)

  drop_upper_bound-Above :
      (s : Timestamp) (ps : List (RawTimeseriesPoint D))
      → Ascending ps
      → Above s (drop (upper_bound ps s) ps)
  unfolding upper_bound
  drop_upper_bound-Above s [] a = tt
  drop_upper_bound-Above s (p ∷ ps) a = elim (Bool-cases (leb_ℤ p.time s)) [
    | inl e ↦ rw e (drop_upper_bound-Above s ps a.1)
    | inr e ↦
        let above : s <ℤ p.time = ground arith in
        rw e (above, Above-le p.time s ps (omega arith) a.0)
  ]

  take_lower_bound-below :
      (s : Timestamp) (ps : List (RawTimeseriesPoint D))
      → All (λ p. p.time ≤ℤ s) (take (lower_bound ps s) ps)
  unfolding lower_bound
  take_lower_bound-below s [] = tt
  take_lower_bound-below s (p ∷ ps) = elim (Bool-cases (ltb_ℤ p.time s)) [
    | inl e ↦ rw e (ground arith, take_lower_bound-below s ps)
    | inr e ↦ rw e tt
  ]

  drop-length : (ps : List (RawTimeseriesPoint D)) → drop (length ps) ps ≡ []
  drop-length [] = refl
  drop-length (p ∷ ps) = drop-length ps

  cut_find :
      (b c : Bool) (o : Option (RawTimeseriesPoint D))
      → (b ≡ true → c ≡ true)
      → first_some (if b then o else none) (if c then none else o)
        ≡ (if not b && c then none else o)
  cut_find true true none h = refl
  cut_find true true (some p) h = refl
  cut_find true false o h = absurd (cc (h refl))
  cut_find false true o h = refl
  cut_find false false o h = refl

  -- The range is cut out: with and without an end.
  cut_below :
      (start end t : Timestamp) (ps : List (RawTimeseriesPoint D))
      → Ascending ps
      → start ≤ℤ end
      → let kept = take (lower_bound ps start) ps ++ drop (upper_bound ps end) ps in
        Ascending kept
        × (find_at t kept ≡ (if not (ltb_ℤ t start) && leb_ℤ t end then none else find_at t ps))
  cut_below start end t ps a h = (
    Ascending-append (take (lower_bound ps start) ps) (drop (upper_bound ps end) ps) start
        (Ascending-take (lower_bound ps start) ps a) (take_lower_bound-below start ps)
        (Above-le end start (drop (upper_bound ps end) ps) h (drop_upper_bound-Above end ps a))
        (Ascending-drop (upper_bound ps end) ps a),
    find_at-append t (take (lower_bound ps start) ps) (drop (upper_bound ps end) ps)
        ∙ ap (λ o. first_some o (find_at t (drop (upper_bound ps end) ps)))
            (find_at-take_lower_bound start t ps a)
        ∙ ap (first_some (if ltb_ℤ t start then find_at t ps else none))
            (find_at-drop_upper_bound end t ps a)
        ∙ cut_find (ltb_ℤ t start) (leb_ℤ t end) (find_at t ps) (λ e. ground arith),
  )

  cut_all :
      (start end t : Timestamp) (ps : List (RawTimeseriesPoint D))
      → Ascending ps
      → t ≤ℤ end
      → let kept = take (lower_bound ps start) ps ++ drop (length ps) ps in
        Ascending kept
        × (find_at t kept ≡ (if not (ltb_ℤ t start) && leb_ℤ t end then none else find_at t ps))
  cut_all start end t ps a h =
      let inside : leb_ℤ t end ≡ true = ground arith in
      (
        rw (drop-length ps) (
            Ascending-append (take (lower_bound ps start) ps) [] start
              (Ascending-take (lower_bound ps start) ps a) (take_lower_bound-below start ps) tt tt),
        find_at-append t (take (lower_bound ps start) ps) (drop (length ps) ps)
            ∙ ap (λ l. first_some (find_at t (take (lower_bound ps start) ps)) (find_at t l))
                (drop-length ps)
            ∙ ap (λ o. first_some o none) (find_at-take_lower_bound start t ps a)
            ∙ rw inside (cut_find (ltb_ℤ t start) true (find_at t ps) (λ _. refl)),
      )

  cut :
      (start end t : Timestamp) (ps : List (RawTimeseriesPoint D))
      → Ascending ps
      → start ≤ℤ end
      → t ≤ℤ max_time
      → Ascending (erase_range start end ps)
        × (find_at t (erase_range start end ps)
            ≡ (if not (ltb_ℤ t start) && leb_ℤ t end then none else find_at t ps))
  unfolding erase_range
  cut start end t ps a h m = elim (Bool-cases (eqb_ℤ end max_time)) [
    | inl e ↦ let there : t ≤ℤ end = ground arith in rw e (cut_all start end t ps a there)
    | inr e ↦ rw e (cut_below start end t ps a h)
  ]

module _ {D L : Type 0} where
  view-plain :
      (w : SequenceWindow D L) (t : Timestamp)
      → w.late_points ≡ []
      → w.active_begin ≡ 0
      → view w t ≡ find_at t w.points
  view-plain w t e b = rw (e, b) refl

  -- A patch of an ordered window replaces a range: from the start to the end of the patch, both
  -- included, the window then holds the last patch point of each time and nothing else, unless it is
  -- a time outside, for which the patch has no point and the window what it held. Times are below
  -- the largest 64-bit number, and the start is not after the end.
  pub patch_sequence-view :
      (start end t : Timestamp) (patch : List (RawTimeseriesPoint D)) (w : SequenceWindow D L)
      → IsOrdered w
      → start ≤ℤ end
      → t ≤ℤ max_time
      → view (patch_sequence start end patch w) t
        ≡ first_some
            (find_last t patch)
            (if not (ltb_ℤ t start) && leb_ℤ t end then none else view w t)
  unfolding patch_sequence
  patch_sequence-view start end t patch w o h m =
      let flushed = flush_late_points w in
      let compacted = compact_sequence flushed in
      let ordered = compact-IsOrdered flushed (flush-IsOrdered w o) in
      let (ascending, gone) = cut start end t compacted.points ordered.points h m in
      let (sorted, last) = sorted-last t patch in
      let no_late : compacted.late_points ≡ [] = compact-late flushed ∙ flush-empties w in
      let whole : view compacted t ≡ find_at t compacted.points =
        view-plain compacted t no_late (compact-begin flushed) in
      merge-view (unique_times (stable_sort patch))
        (record compacted { points = erase_range start end compacted.points }) t
        (record { points = ascending; late = ordered.late; keyed = ordered.keyed }) sorted
      ∙ rw (no_late, compact-begin flushed, last, gone)
          (ap
            (λ v.
              first_some (find_last t patch)
                (if not (ltb_ℤ t start) && leb_ℤ t end then none else v))
            (sym whole ∙ compact-view flushed t ∙ flush-view w t o))

-- ===== src/Window/Prune.antt =====
-- `pruneOne` of src/window_service.cpp: what it evicts of the map that a window stands for.
use time_series_engine.Base.{
  ℕ, zero, suc, ◌+◌, ◌*◌, ◌≤◌, ◌≡◌, refl, ◌∙◌, sym, ap, Bool, true, false, ◌&&◌, Option, none, List,
  [], ◌∷◌, if◌then◌else◌, arith, Bool-cases, inl, inr, take, drop, length, leb, ltb_ℤ,
}
use time_series_engine.Floating.{Floating, Extended}
use time_series_engine.Types.{Timestamp, RawTimeseriesPoint}
use time_series_engine.Window.{SequenceWindow}
use time_series_engine.Window.Points.{lower_bound}
use time_series_engine.Window.Statistics.{remove_statistic, remove_statistics, remove_value}
use time_series_engine.Window.Sequence.{pruned, compact_if_worth, prune_one, compaction_threshold}
use time_series_engine.Window.Lookup.{first_some, find_at, Ascending-drop}
use time_series_engine.Window.View.{active, view, late_values, compact-view}
use time_series_engine.Window.Aside.{
  find_at-erase_late_before, find_at-drop_lower_bound, erase_late_before-kept,
  erase_late_before-All, erase_late_before-Ascending,
}
use time_series_engine.Window.Invariant.{IsWindow, compact-IsWindow}

drop-nil {ℓ} : {A : Type ℓ} (n : ℕ) → drop {A = A} n [] ≡ []
drop-nil zero = refl
drop-nil (suc n) = refl

pub drop-drop {ℓ} : {A : Type ℓ} (m n : ℕ) (xs : List A) → drop (m + n) xs ≡ drop n (drop m xs)
drop-drop zero n xs = let e : zero + n ≡ n = omega arith in ap (λ k. drop k xs) e
drop-drop (suc m) n [] =
    let e : suc m + n ≡ suc (m + n) = omega arith in ap (λ k. drop k []) e ∙ sym (drop-nil n)
drop-drop (suc m) n (x ∷ xs) =
    let e : suc m + n ≡ suc (m + n) = omega arith in ap (λ k. drop k (x ∷ xs)) e ∙ drop-drop m n xs

length-drop {ℓ} :
    {A : Type ℓ} (m : ℕ) (xs : List A) → m ≤ length xs → m + length (drop m xs) ≡ length xs
length-drop zero xs h = omega arith
length-drop (suc m) [] h = absurd (omega arith)
length-drop (suc m) (x ∷ xs) h = omega (arith, length-drop m xs (omega arith))

first_some-if {ℓ} :
    {A : Type ℓ} (b : Bool) (o p : Option A)
    → first_some (if b then none else o) (if b then none else p)
      ≡ (if b then none else first_some o p)
first_some-if true o p = refl
first_some-if false o p = refl

module _ {D : Type 0} where
  lower_bound-le : (s : Timestamp) (ps : List (RawTimeseriesPoint D)) → lower_bound ps s ≤ length ps
  unfolding lower_bound
  lower_bound-le s [] = omega arith
  lower_bound-le s (p ∷ ps) = ground (arith, lower_bound-le s ps)

module _ {D L : Type 0} ⦃f : Floating D⦄ ⦃x : Extended D L⦄ where
  remove_statistic-fields :
      (p : RawTimeseriesPoint D) (w : SequenceWindow D L)
      → ((remove_statistic p w).points ≡ w.points)
        × ((remove_statistic p w).latest_time ≡ w.latest_time)
  unfolding remove_statistic remove_value
  remove_statistic-fields p w = (ground arith, ground arith)

  pub remove_statistics-fields :
      (ps : List (RawTimeseriesPoint D)) (w : SequenceWindow D L)
      → ((remove_statistics ps w).points ≡ w.points)
        × ((remove_statistics ps w).latest_time ≡ w.latest_time)
  unfolding remove_statistics
  remove_statistics-fields [] w = (refl, refl)
  remove_statistics-fields (p ∷ ps) w =
      let (points, latest) = remove_statistic-fields p w in
      let (points', latest') = remove_statistics-fields ps (remove_statistic p w) in
      (points' ∙ points, latest' ∙ latest)

  pruned-view :
      (s t : Timestamp) (w : SequenceWindow D L)
      → IsWindow w
      → view (pruned s w) t ≡ (if ltb_ℤ t s then none else view w t)
  unfolding pruned
  pruned-view s t w h =
      let n = lower_bound (active w) s in
      let (points, _) = remove_statistics-fields (take n (active w)) w in
      rw
        (
          points,
          drop-drop w.active_begin n w.points,
          find_at-erase_late_before s t w.late_points h.ordered.keyed h.ordered.late,
          find_at-drop_lower_bound s t (active w)
              (Ascending-drop w.active_begin w.points h.ordered.points),
        )
        (first_some-if (ltb_ℤ t s) (find_at t (late_values w.late_points)) (find_at t (active w)))

  pruned-IsWindow : (s : Timestamp) (w : SequenceWindow D L) → IsWindow w → IsWindow (pruned s w)
  unfolding pruned
  pruned-IsWindow s w h =
      let n = lower_bound (active w) s in
      let (points, latest) = remove_statistics-fields (take n (active w)) w in
      record {
        ordered = record {
          points = rw points h.ordered.points;
          late = erase_late_before-Ascending s w.late_points h.ordered.late;
          keyed = erase_late_before-kept _ s w.late_points h.ordered.keyed;
        };
        begin = rw points (
            omega
              (arith, lower_bound-le s (active w), length-drop w.active_begin w.points h.begin));
        reached = rw (points, latest) h.reached;
        late_reached = rw latest (erase_late_before-All _ s w.late_points h.late_reached);
      }

  -- After an eviction the window holds nothing for a time before the start, and what it held before
  -- for every other time, whether or not the vector was compacted. The window is well-formed.
  pub prune_one-view :
      (s t : Timestamp) (w : SequenceWindow D L)
      → IsWindow w
      → view (prune_one s w).0 t ≡ (if ltb_ℤ t s then none else view w t)
  unfolding prune_one compact_if_worth
  prune_one-view s t w h =
      let p = pruned s w in
      elim (Bool-cases
        (leb compaction_threshold p.active_begin && leb (length p.points) (p.active_begin * 2))) [
          | inl e ↦ rw e (compact-view p t ∙ pruned-view s t w h)
          | inr e ↦ rw e (pruned-view s t w h)
        ]

  pub prune_one-IsWindow :
      (s : Timestamp) (w : SequenceWindow D L) → IsWindow w → IsWindow (prune_one s w).0
  unfolding prune_one compact_if_worth
  prune_one-IsWindow s w h =
      let p = pruned s w in
      elim (Bool-cases
        (leb compaction_threshold p.active_begin && leb (length p.points) (p.active_begin * 2))) [
          | inl e ↦ rw e (compact-IsWindow p (pruned-IsWindow s w h))
          | inr e ↦ rw e (pruned-IsWindow s w h)
        ]

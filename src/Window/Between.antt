-- ===== src/Window/Between.antt =====
-- The points of an answer between the bounds of a range query in src/window_service.cpp, whatever
-- context stands around them.
use mathlib.Core.List.{reverse, reverse-cons}
use time_series_engine.Base.{
  ℕ, zero, suc, ◌≡◌, refl, ◌∙◌, sym, ap, subst, Bool, true, false, not, ◌&&◌, Option, none, some,
  List, [], ◌∷◌, ◌++◌, drop, take, ltb_ℤ, leb_ℤ, eqb_ℤ, if◌then◌else◌, arith, All, All-append,
  Bool-cases, inl, inr, eq_of_parts,
}
use time_series_engine.Types.{Timestamp, RawTimeseriesPoint}
use time_series_engine.Window.{SequenceWindow}
use time_series_engine.Window.Points.{lower_bound, erase_late_before}
use time_series_engine.Window.Query.{late_before, preceding, following, read_range, read_sequence}
use time_series_engine.Window.Lookup.{first_some, find_at, find_at-append, Ascending-drop}
use time_series_engine.Window.View.{late_values, view, active, IsOrdered}
use time_series_engine.Window.Aside.{find_at-erase_late_before, find_at-drop_lower_bound}
use time_series_engine.Window.Ranges.{
  find_at-take_lower_bound, find_at-late_before, read_range-view,
}

All-reverse {ℓ κ} : {A : Type ℓ} (P : A → Type κ) (l : List A) → All P l → All P (reverse l)
All-reverse P [] all = tt
All-reverse P (a ∷ l) all =
    subst (All P) (sym (reverse-cons a l))
      (All-append P (reverse l) (a ∷ []) (All-reverse P l all.1) (all.0, tt))

abbrev pub is_between : Timestamp → Timestamp → Timestamp → Bool
is_between start end t = not (ltb_ℤ t start) && ltb_ℤ t end

module _ {D : Type 0} where
  -- The points between two times.
  abbrev pub within :
      Timestamp → Timestamp → List (RawTimeseriesPoint D) → List (RawTimeseriesPoint D)
  within start end [] = []
  within start end (p ∷ ps) =
      if is_between start end p.time then p ∷ within start end ps else within start end ps

  pub find_at-within :
      (start end t : Timestamp) (ps : List (RawTimeseriesPoint D))
      → find_at t (within start end ps) ≡ (if is_between start end t then find_at t ps else none)
  find_at-within start end t [] = elim (Bool-cases (is_between start end t)) [
    | inl e ↦ rw e refl
    | inr e ↦ rw e refl
  ]
  find_at-within start end t (p ∷ ps) =
      let rest = find_at-within start end t ps in
      elim (Bool-cases (eqb_ℤ p.time t)) [
        | inl k ↦
            let same : p.time ≡ t = eq_of_parts p.time t (ground arith) in
            elim (Bool-cases (is_between start end t)) [
              | inl e ↦ let here = ap (is_between start end) same ∙ e in rw (here, e, k) refl
              | inr e ↦ let here = ap (is_between start end) same ∙ e in rw (here, e) (rw e at rest)
            ]
        | inr k ↦ elim (Bool-cases (is_between start end p.time)) [
          | inl e ↦ rw (e, k) rest
          | inr e ↦ rw (e, k) rest
        ]
      ]

  -- No point has the time.
  abbrev Absent : Timestamp → List (RawTimeseriesPoint D) → Type 0
  Absent t = All (λ p. eqb_ℤ p.time t ≡ false)

  abbrev LateAbsent : Timestamp → List (Timestamp × RawTimeseriesPoint D) → Type 0
  LateAbsent t = All (λ e. eqb_ℤ e.1.time t ≡ false)

  Absent-find_at :
      (t : Timestamp) (ps : List (RawTimeseriesPoint D)) → find_at t ps ≡ none → Absent t ps
  Absent-find_at t [] e = tt
  Absent-find_at t (p ∷ ps) e = elim (Bool-cases (eqb_ℤ p.time t)) [
    | inl same ↦ absurd (cc (rw same at e))
    | inr other ↦ (other, Absent-find_at t ps (rw other at e))
  ]

  LateAbsent-find_at :
      (t : Timestamp) (late : List (Timestamp × RawTimeseriesPoint D))
      → find_at t (late_values late) ≡ none
      → LateAbsent t late
  LateAbsent-find_at t [] e = tt
  LateAbsent-find_at t ((u, q) ∷ late) e = elim (Bool-cases (eqb_ℤ q.time t)) [
    | inl same ↦ absurd (cc (rw same at e))
    | inr other ↦ (other, LateAbsent-find_at t late (rw other at e))
  ]

  find_at-Absent :
      (t : Timestamp) (ps : List (RawTimeseriesPoint D)) → Absent t ps → find_at t ps ≡ none
  find_at-Absent t [] a = refl
  find_at-Absent t (p ∷ ps) a = ground (arith, a.0, find_at-Absent t ps a.1)

  preceding-Absent :
      (t : Timestamp) (n : ℕ) (points : List (RawTimeseriesPoint D))
      (late : List (Timestamp × RawTimeseriesPoint D))
      → Absent t points
      → LateAbsent t late
      → Absent t (preceding n points late)
  unfolding preceding
  preceding-Absent t zero points late a b = tt
  preceding-Absent t (suc n) [] [] a b = tt
  preceding-Absent t (suc n) [] ((u, q) ∷ late) a b = (b.0, preceding-Absent t n [] late a b.1)
  preceding-Absent t (suc n) (p ∷ points) [] a b = (a.0, preceding-Absent t n points [] a.1 b)
  preceding-Absent t (suc n) (p ∷ points) ((u, q) ∷ late) a b =
      elim (Bool-cases (leb_ℤ p.time q.time)) [
        | inl e ↦ elim (Bool-cases (eqb_ℤ p.time q.time)) [
          | inl k ↦ rw (preceding, e, k) (b.0, preceding-Absent t n points late a.1 b.1)
          | inr k ↦ rw (preceding, e, k) (b.0, preceding-Absent t n (p ∷ points) late a b.1)
        ]
        | inr e ↦ rw (preceding, e) (a.0, preceding-Absent t n points ((u, q) ∷ late) a.1 b)
      ]

  following-Absent :
      (t : Timestamp) (n : ℕ) (points : List (RawTimeseriesPoint D))
      (late : List (Timestamp × RawTimeseriesPoint D))
      → Absent t points
      → LateAbsent t late
      → Absent t (following n points late)
  unfolding following
  following-Absent t zero points late a b = tt
  following-Absent t (suc n) [] [] a b = tt
  following-Absent t (suc n) [] ((u, q) ∷ late) a b = (b.0, following-Absent t n [] late a b.1)
  following-Absent t (suc n) (p ∷ points) [] a b = (a.0, following-Absent t n points [] a.1 b)
  following-Absent t (suc n) (p ∷ points) ((u, q) ∷ late) a b =
      elim (Bool-cases (leb_ℤ q.time p.time)) [
        | inl e ↦ elim (Bool-cases (eqb_ℤ p.time q.time)) [
          | inl k ↦ rw (following, e, k) (b.0, following-Absent t n points late a.1 b.1)
          | inr k ↦ rw (following, e, k) (b.0, following-Absent t n (p ∷ points) late a b.1)
        ]
        | inr e ↦ rw (following, e) (a.0, following-Absent t n points ((u, q) ∷ late) a.1 b)
      ]

first_some-none {ℓ} : {A : Type ℓ} (o : Option A) → first_some o none ≡ o
first_some-none none = refl
first_some-none (some a) = refl

module _ {D L : Type 0} where
  -- Around the range stand no points of a time in it.
  find_at-read_sequence :
      (before after : ℕ) (start end t : Timestamp) (w : SequenceWindow D L)
      → IsOrdered w
      → ltb_ℤ t start ≡ false
      → ltb_ℤ t end ≡ true
      → find_at t (read_sequence before after start end w) ≡ view w t
  unfolding read_sequence
  find_at-read_sequence before after start end t w h low high =
      let act = active w in
      let a = Ascending-drop w.active_begin w.points h.points in
      let from_start = drop (lower_bound act start) act in
      let a' = Ascending-drop (lower_bound act start) act a in
      let front : List (RawTimeseriesPoint D) =
        preceding before (reverse (take (lower_bound act start) act))
          (reverse (late_before start w.late_points)) in
      let back : List (RawTimeseriesPoint D) =
        following after (drop (lower_bound from_start end) from_start)
          (erase_late_before end w.late_points) in
      let none_before = find_at-Absent t (reverse front) (
        All-reverse _ front (
          preceding-Absent t before _ _
            (All-reverse _ _
              (Absent-find_at t _ (find_at-take_lower_bound start t act a ∙ rw low refl)))
            (All-reverse _ _ (
              LateAbsent-find_at t _
                (find_at-late_before start t w.late_points h.keyed h.late ∙ rw low refl))))) in
      let none_behind = find_at-Absent t back (
        following-Absent t after _ _
          (Absent-find_at t _ (find_at-drop_lower_bound end t from_start a' ∙ rw high refl))
          (LateAbsent-find_at t _
            (find_at-erase_late_before end t w.late_points h.keyed h.late ∙ rw high refl))) in
      let inside : find_at t (read_range start end w) ≡ view w t =
        (read_range-view start end t w h).1 ∙ rw (low, high) refl in
      let whole : read_sequence before after start end w
          ≡ (reverse front ++ read_range start end w) ++ back =
        refl in
      ap (find_at t) whole
      ∙ find_at-append t (reverse front ++ read_range start end w) back
      ∙ rw
          (
            find_at-append t (reverse front) (read_range start end w),
            none_before,
            inside,
            none_behind,
          )
          (first_some-none (view w t))

  pub within-read_sequence :
      (before after : ℕ) (start end t : Timestamp) (w : SequenceWindow D L)
      → IsOrdered w
      → find_at t (within start end (read_sequence before after start end w))
        ≡ (if is_between start end t then view w t else none)
  within-read_sequence before after start end t w h =
      find_at-within start end t (read_sequence before after start end w)
      ∙ elim (Bool-cases (ltb_ℤ t start)) [
        | inl early ↦ rw early refl
        | inr low ↦ elim (Bool-cases (ltb_ℤ t end)) [
          | inl high ↦ rw (low, high) (find_at-read_sequence before after start end t w h low high)
          | inr past ↦ rw (low, past) refl
        ]
      ]

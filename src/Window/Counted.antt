-- ===== src/Window/Counted.antt =====
-- The running statistics of a sequence's window in src/window_service.cpp against the active points.
use time_series_engine.Base.{
  ◌+◌, ◌≤◌, ◌≡◌, refl, ◌∙◌, sym, ap, subst, Bool, true, false, Option, none, some, List, [], ◌∷◌,
  ◌++◌, arith, Option-cases, inl, inr, All, length, length-append, ◌<ℤ◌,
}
use mathlib.Core.List.{append-nil, append_assoc}
use time_series_engine.Floating.{Floating, Extended}
use time_series_engine.Types.{Timestamp, TimeseriesValue, RawTimeseriesPoint}
use time_series_engine.Window.{SequenceWindow}
use time_series_engine.Window.Statistics.{
  finite_numeric_value, reset_statistics, append_value, append_statistic, remove_value,
  remove_statistic, pop_front_at,
}
use time_series_engine.Window.Lookup.{Above}
use time_series_engine.Window.Lasting.{IsRanking, lasting, push-lasting, pop_front-lasting}

-- What the window needs of `double`: `<=` decides between finite values and can be chained, and an
-- integer becomes a finite value.
pub record IsOrder {D : Type 0} (f : Floating D) : Type 0 where
  pub total :
      (a b : D) → f.is_finite a ≡ true → f.is_finite b ≡ true → f.le a b ≡ false → f.le b a ≡ true
  pub chained : (a b c : D) → f.le a b ≡ true → f.le b c ≡ true → f.le a c ≡ true
  pub integers : (i : _) → f.is_finite (f.of_int i) ≡ true

module _ {D : Type 0} (f : Floating D) where
  abbrev pub at_most : D → D → Bool
  at_most v d = f.le v d

  abbrev pub at_least : D → D → Bool
  at_least v d = f.le d v

  pub at_most-IsRanking : IsOrder f → IsRanking f.is_finite at_most
  at_most-IsRanking o = record { total = o.total; chained = o.chained }

  pub at_least-IsRanking : IsOrder f → IsRanking f.is_finite at_least
  at_least-IsRanking o = record {
    total = λ a b g h e. o.total b a h g e;
    chained = λ a b c p q. o.chained c b a q p;
  }

module _ {D : Type 0} ⦃f : Floating D⦄ where
  abbrev pub entry_of : Timestamp → Option D → List (Timestamp × D)
  entry_of time none = []
  entry_of time (some d) = (time, d) ∷ []

  -- The points with a finite number, as entries.
  abbrev pub numerics : List (RawTimeseriesPoint D) → List (Timestamp × D)
  numerics [] = []
  numerics (p ∷ ps) = entry_of p.time (finite_numeric_value p.value) ++ numerics ps

  finite_value :
      (o : IsOrder f) (v : TimeseriesValue D) (d : D)
      → finite_numeric_value v ≡ some d
      → f.is_finite d ≡ true
  unfolding finite_numeric_value
  finite_value o (TimeseriesValue.double a) d e = ground arith
  finite_value o (TimeseriesValue.int64 i) d e =
      let same : f.of_int i ≡ d = cc e in subst (λ a. f.is_finite a ≡ true) same (o.integers i)
  finite_value o (TimeseriesValue.boolean b) d e = absurd (cc e)
  finite_value o (TimeseriesValue.text t) d e = absurd (cc e)

  numerics-append :
      (ps qs : List (RawTimeseriesPoint D)) → numerics (ps ++ qs) ≡ numerics ps ++ numerics qs
  numerics-append [] qs = refl
  numerics-append (p ∷ ps) qs =
      ap (λ l. entry_of p.time (finite_numeric_value p.value) ++ l) (numerics-append ps qs)
      ∙ sym (
          append_assoc (entry_of p.time (finite_numeric_value p.value)) (numerics ps) (numerics qs))

  pub numerics-finite :
      (o : IsOrder f) (ps : List (RawTimeseriesPoint D))
      → All (λ e. f.is_finite e.1 ≡ true) (numerics ps)
  numerics-finite o [] = tt
  numerics-finite o (p ∷ ps) = elim (Option-cases (finite_numeric_value p.value)) [
    | inl e ↦ rw e (numerics-finite o ps)
    | inr (d, e) ↦ rw e (finite_value o p.value d e, numerics-finite o ps)
  ]

  numerics-le : (ps : List (RawTimeseriesPoint D)) → length (numerics ps) ≤ length ps
  numerics-le [] = omega arith
  numerics-le (p ∷ ps) = elim (Option-cases (finite_numeric_value p.value)) [
    | inl e ↦ rw e (omega (arith, numerics-le ps))
    | inr (d, e) ↦ rw e (omega (arith, numerics-le ps))
  ]

  numerics-later :
      (t : Timestamp) (ps : List (RawTimeseriesPoint D))
      → Above t ps
      → All (λ (later : Timestamp × D). t <ℤ later.0) (numerics ps)
  numerics-later t [] a = tt
  numerics-later t (p ∷ ps) a = elim (Option-cases (finite_numeric_value p.value)) [
    | inl e ↦ rw e (numerics-later t ps a.1)
    | inr (d, e) ↦ rw e (a.0, numerics-later t ps a.1)
  ]

module _ {D L : Type 0} ⦃f : Floating D⦄ ⦃x : Extended D L⦄ where
  -- The statistics are those of a list of points.
  pub record Counted (ps : List (RawTimeseriesPoint D)) (w : SequenceWindow D L) : Type 0 where
    pub valid : w.statistics_valid ≡ true
    pub count : w.statistics_count ≡ length (numerics ps)
    pub others : w.statistics_non_numeric_count + length (numerics ps) ≡ length ps
    pub minimum : w.statistics_minimum ≡ lasting (at_most f) (numerics ps)
    pub maximum : w.statistics_maximum ≡ lasting (at_least f) (numerics ps)

  pub reset-Counted : (w : SequenceWindow D L) → Counted [] (reset_statistics w)
  unfolding reset_statistics
  reset-Counted w = record {
    valid = refl;
    count = refl;
    others = refl;
    minimum = refl;
    maximum = refl;
  }

  pub append-Counted :
      (o : IsOrder f) (p : RawTimeseriesPoint D) (ps : List (RawTimeseriesPoint D))
      (w : SequenceWindow D L)
      → Counted ps w
      → Counted (ps ++ p ∷ []) (append_statistic p w)
  unfolding append_statistic
  append-Counted o p ps w c = elim (Option-cases (finite_numeric_value p.value)) [
    | inl e ↦
        let same : numerics (ps ++ p ∷ []) ≡ numerics ps =
          numerics-append ps (p ∷ []) ∙ rw e (append-nil (numerics ps)) in
        rw (c.valid, e, append_value)
          (record {
            valid = refl;
            count = rw same c.count;
            others = rw (same, length-append ps (p ∷ [])) (omega (arith, c.others));
            minimum = rw same c.minimum;
            maximum = rw same c.maximum;
          })
    | inr (d, e) ↦
        let grown : numerics (ps ++ p ∷ []) ≡ numerics ps ++ (p.time, d) ∷ [] =
          numerics-append ps (p ∷ []) ∙ rw e refl in
        let finite = numerics-finite o ps in
        rw (c.valid, e, append_value)
          (record {
            valid = refl;
            count = rw (grown, length-append (numerics ps) ((p.time, d) ∷ []), c.count) refl;
            others =
                rw
                  (grown, length-append (numerics ps) ((p.time, d) ∷ []), length-append ps (p ∷ []))
                  (omega (arith, c.others));
            minimum =
                rw (grown, c.minimum)
                  (push-lasting f.is_finite (at_most f) (numerics ps) p.time d
                    (at_most-IsRanking f o) finite);
            maximum =
                rw (grown, c.maximum)
                  (push-lasting f.is_finite (at_least f) (numerics ps) p.time d
                    (at_least-IsRanking f o) finite);
          })
  ]

  pub remove-Counted :
      (p : RawTimeseriesPoint D) (ps : List (RawTimeseriesPoint D)) (w : SequenceWindow D L)
      → Above p.time ps
      → Counted (p ∷ ps) w
      → Counted ps (remove_statistic p w)
  unfolding remove_statistic remove_value
  remove-Counted p ps w a c = elim (Option-cases (finite_numeric_value p.value)) [
    | inl e ↦
        rw (c.valid, e, remove_value)
          (record {
            valid = refl;
            count = rw e at c.count;
            others = omega (arith, rw e at c.others, numerics-le ps);
            minimum = rw e at c.minimum;
            maximum = rw e at c.maximum;
          })
    | inr (d, e) ↦
        let later = numerics-later p.time ps a in
        rw (c.valid, e, remove_value)
          (record {
            valid = refl;
            count = omega (arith, rw e at c.count);
            others = omega (arith, rw e at c.others);
            minimum =
                ap (pop_front_at p.time) (rw e at c.minimum)
                ∙ pop_front-lasting (at_most f) (p.time, d) (numerics ps) later;
            maximum =
                ap (pop_front_at p.time) (rw e at c.maximum)
                ∙ pop_front-lasting (at_least f) (p.time, d) (numerics ps) later;
          })
  ]

-- ===== src/Engine/Aggregate.antt =====
-- `buildWindowStatisticsForRule` and `evaluateAggregateRule` of src/constraint_check_engine.cpp.
use time_series_engine.Base.{
  ℕ, ◌+◌, ◌==◌, ltb_ℤ, leb_ℤ, Bool, true, false, not, ◌||◌, none, some, List, [], ◌∷◌, String, ◌<>◌,
  if◌then◌else◌,
}
use time_series_engine.Base.Assoc.{Table, lookup, emplace, contains, has_id}
use time_series_engine.Floating.{Floating, Extended}
use time_series_engine.Types.{
  Timestamp, SequenceId, RawTimeseriesPoint, WindowData, ConstraintTerm, ConstraintRule,
  ConstraintAggregation, ConstraintCheckResult,
}
use time_series_engine.Window.Summary.{SequenceWindowStatistics, WindowStatisticsData}
use time_series_engine.Engine.{
  Step, done, failed, ◌>>=◌, access, ResolvedTermValue, numeric_value, evaluate_rule_at,
  mapped_sequences_for_rule,
}

-- The variables of the loop over the points of a sequence.
pub record Measure (D L : Type 0) : Type 0 where
  pub count : ℕ
  pub sum : L
  pub minimum : D
  pub maximum : D

module _ {D L : Type 0} ⦃f : Floating D⦄ (sums : Extended D L) where
  unfoldable pub empty_measure : Measure D L
  empty_measure = record {
    count = 0;
    sum = sums.zero;
    minimum = f.infinity;
    maximum = f.negative_infinity;
  }

  -- `std::min(minimum, value)` and `std::max(maximum, value)`
  unfoldable pub add_value : D → Measure D L → Measure D L
  add_value value m = record {
    count = m.count + 1;
    sum = sums.add m.sum (sums.widen value);
    minimum = if f.lt value m.minimum then value else m.minimum;
    maximum = if f.lt m.maximum value then value else m.maximum;
  }

  -- The loop over the points of a sequence.
  unfoldable pub measure_points :
      Timestamp → Timestamp → List (RawTimeseriesPoint D) → Measure D L → Step String (Measure D L)
  unfolding numeric_value add_value
  measure_points start end [] m = done m
  measure_points start end (p ∷ points) m =
      (if ltb_ℤ p.time start || leb_ℤ end p.time then done m else elim (numeric_value p.value) [
        | none ↦ failed "window aggregate constraint values must be finite numeric values"
        | some value ↦ done (add_value value m)
      ])
      >>= λ m'. measure_points start end points m'

  -- What a measured sequence adds to the statistics.
  unfoldable pub add_statistics :
      SequenceId
      → Measure D L
      → Table (SequenceWindowStatistics D)
      → Step String (Table (SequenceWindowStatistics D))
  unfolding emplace
  add_statistics id m statistics =
      let average = sums.average m.sum m.count in
      if m.count == 0
      then done statistics
      else if not (f.is_finite average)
      then failed "window aggregate average is not finite"
      else done (
          emplace id
            (record {
              count = m.count;
              average = average;
              maximum = m.maximum;
              minimum = m.minimum;
            })
            statistics)

  -- One sequence that was not seen before.
  unfoldable pub measure_sequence :
      WindowData D
      → SequenceId
      → Table (SequenceWindowStatistics D)
      → Step String (Table (SequenceWindowStatistics D))
  unfolding lookup empty_measure measure_points add_statistics
  measure_sequence w id statistics = elim (lookup id w.sequence_values) [
    | none ↦ failed ("window data does not contain mapped sequence: " <> id)
    | some points ↦
        measure_points w.window_start_time w.window_end_time points empty_measure >>= λ m.
        add_statistics id m statistics
  ]

  -- The loop over the terms.
  unfoldable pub measure_terms :
      Table SequenceId
      → WindowData D
      → List (ConstraintTerm D)
      → List SequenceId
      → Table (SequenceWindowStatistics D)
      → Step String (Table (SequenceWindowStatistics D))
  unfolding lookup has_id measure_sequence
  measure_terms mapping w [] seen statistics = done statistics
  measure_terms mapping w (term ∷ terms) seen statistics =
      access (lookup term.variable mapping) >>= λ id.
      (if has_id id seen then done statistics else measure_sequence w id statistics)
      >>= λ statistics'.
          measure_terms mapping w terms (if has_id id seen then seen else id ∷ seen) statistics'

  unfoldable pub build_window_statistics_for_rule :
      ConstraintRule D → WindowData D → Step String (WindowStatisticsData D)
  unfolding measure_terms
  build_window_statistics_for_rule rule w =
      measure_terms rule.variable_mapping w rule.terms [] [] >>= λ statistics. done (record {
        window_start_time = w.window_start_time;
        window_end_time = w.window_end_time;
        sequence_statistics = statistics;
        project_id = w.project_id;
      })

module _ {D : Type 0} where
  -- `term.aggregation` picks the figure.
  unfoldable pub figure_of : ConstraintAggregation → SequenceWindowStatistics D → Step String D
  figure_of ConstraintAggregation.average s = done s.average
  figure_of ConstraintAggregation.maximum s = done s.maximum
  figure_of ConstraintAggregation.minimum s = done s.minimum
  figure_of ConstraintAggregation.sample s =
      failed "sample term cannot be evaluated from window statistics"

  unfoldable pub resolve_aggregate :
      WindowStatisticsData D → ConstraintTerm D → SequenceId → ℕ → Step String (ResolvedTermValue D)
  unfolding lookup figure_of
  resolve_aggregate w term id anchor = elim (lookup id w.sequence_statistics) [
    | none ↦ failed ("window aggregate sequence has no numeric samples: " <> id)
    | some s ↦
        if s.count == 0
        then failed ("window aggregate sequence has no numeric samples: " <> id)
        else (figure_of term.aggregation s >>= λ value.
            done (record { sample_time = w.window_end_time; value = value }))
  ]

  unfoldable pub all_measured : WindowStatisticsData D → List SequenceId → Bool
  unfolding lookup
  all_measured w [] = true
  all_measured w (id ∷ ids) =
      let rest = all_measured w ids in if contains id w.sequence_statistics then rest else false

module _ {D : Type 0} ⦃f : Floating D⦄ where
  unfoldable pub evaluate_aggregate_rule :
      ConstraintRule D
      → WindowStatisticsData D
      → ConstraintCheckResult D
      → Step String (ConstraintCheckResult D)
  unfolding mapped_sequences_for_rule all_measured evaluate_rule_at resolve_aggregate
  evaluate_aggregate_rule rule w result = mapped_sequences_for_rule rule >>= λ ids.
      if all_measured w ids
      then evaluate_rule_at rule ids w.window_end_time 0 (resolve_aggregate w) result
      else done (record result { pending_count = result.pending_count + 1 })

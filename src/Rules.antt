-- ===== src/Rules.antt =====
-- src/constraint_rule_helpers.hpp: the structural checks of a constraint rule.
pub mod Accepted
use time_series_engine.Base.{
  ℕ, ◌≡◌, refl, ◌⊎◌, inl, inr, Bool, true, false, not, ◌&&◌, ◌||◌, Option, none, some, List, [],
  ◌∷◌, String, ◌<>◌, is_empty, is_nil, is_some, ltb, ◌==◌, if◌then◌else◌,
}
use time_series_engine.Base.Assoc.{Table, contains}
use time_series_engine.Base.Checked.{Checked, accepted, rejected, ◌>>=◌}
use time_series_engine.Floating.{Floating}
use time_series_engine.Types.{SequenceId, ConstraintAggregation, ConstraintTerm, ConstraintRule}

pub data ConstraintRuleKind : Type 0 where
  sample window_aggregate : ConstraintRuleKind

pub record ConstraintRuleProperties : Type 0 where
  pub kind : ConstraintRuleKind
  pub maximum_sample_offset : ℕ

unfoldable pub is_window_aggregation : ConstraintAggregation → Bool
is_window_aggregation ConstraintAggregation.sample = false
is_window_aggregation ConstraintAggregation.average = true
is_window_aggregation ConstraintAggregation.maximum = true
is_window_aggregation ConstraintAggregation.minimum = true

unfoldable pub valid_constraint_aggregation : ConstraintAggregation → Bool
valid_constraint_aggregation ConstraintAggregation.sample = true
valid_constraint_aggregation ConstraintAggregation.average = true
valid_constraint_aggregation ConstraintAggregation.maximum = true
valid_constraint_aggregation ConstraintAggregation.minimum = true

-- The variables of the loop over the terms.
pub record Scan : Type 0 where
  pub has_sample_term : Bool
  pub has_aggregate_term : Bool
  pub previous_offset : ℕ
  pub first_sample_term : Bool

unfoldable pub initial_scan : Scan
initial_scan = record {
  has_sample_term = false;
  has_aggregate_term = false;
  previous_offset = 0;
  first_sample_term = true;
}

-- What stands behind the loop.
unfoldable pub rule_properties : Scan → Checked ConstraintRuleProperties
rule_properties st =
    if st.has_sample_term && st.has_aggregate_term
    then rejected "sample and window aggregate terms must not be mixed in one rule"
    else accepted (record {
      kind =
          if st.has_aggregate_term
          then ConstraintRuleKind.window_aggregate
          else ConstraintRuleKind.sample;
      maximum_sample_offset = if st.has_sample_term then st.previous_offset else 0;
    })

module _ {D : Type 0} ⦃f : Floating D⦄ where
  -- One round of the loop.
  unfoldable pub check_term : Table SequenceId → ConstraintTerm D → Scan → Checked Scan
  unfolding is_window_aggregation valid_constraint_aggregation
  check_term mapping term st =
      if is_empty term.variable || not (f.is_finite term.coefficient)
      then rejected "constraint terms must contain a variable and finite coefficient"
      else if not (valid_constraint_aggregation term.aggregation)
      then rejected "constraint term has an unknown aggregation"
      else if not (contains term.variable mapping)
      then rejected ("constraint term has no variable mapping: " <> term.variable)
      else if is_window_aggregation term.aggregation
      then (if not (term.sample_offset == 0)
          then rejected "window aggregate constraint terms must use sample_offset zero"
          else accepted (record st { has_aggregate_term = true }))
      else if (st.first_sample_term && not (term.sample_offset == 0))
          || (not st.first_sample_term && ltb term.sample_offset st.previous_offset)
      then rejected "constraint offsets must start at zero and be nondecreasing"
      else accepted (record st {
        has_sample_term = true;
        first_sample_term = false;
        previous_offset = term.sample_offset;
      })

  unfoldable pub scan_terms : Table SequenceId → List (ConstraintTerm D) → Scan → Checked Scan
  scan_terms mapping [] st = accepted st
  scan_terms mapping (term ∷ terms) st =
      check_term mapping term st >>= λ st'. scan_terms mapping terms st'

  -- A bound that is given is finite.
  unfoldable pub bound_is_finite : Option D → Bool
  bound_is_finite none = true
  bound_is_finite (some b) = f.is_finite b

  -- Not `*lower > *upper`, on bounds that are both given.
  unfoldable pub bounds_are_ordered : Option D → Option D → Bool
  bounds_are_ordered (some lower) (some upper) = not (f.lt upper lower)
  bounds_are_ordered _ _ = true

  unfoldable pub validate_constraint_rule : ConstraintRule D → Checked ConstraintRuleProperties
  unfolding scan_terms rule_properties bound_is_finite bounds_are_ordered initial_scan
  validate_constraint_rule rule =
      if is_empty rule.constraint_id
      then rejected "constraint_id must not be empty"
      else if not (is_some rule.lower_bound) && not (is_some rule.upper_bound)
      then rejected "constraint must contain a lower or upper bound"
      else if (not (bound_is_finite rule.lower_bound) || not (bound_is_finite rule.upper_bound))
          || not (bounds_are_ordered rule.lower_bound rule.upper_bound)
      then rejected "constraint bounds must be finite and ordered"
      else if is_nil rule.variable_mapping || is_nil rule.terms
      then rejected "constraint mappings and terms must not be empty"
      else (scan_terms rule.variable_mapping rule.terms initial_scan >>= rule_properties)

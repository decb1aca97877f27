-- ===== src/Engine.antt =====
-- src/constraint_check_engine.cpp: the evaluation of one rule at one anchor.
pub mod Combine
pub mod Aggregate
pub mod Anchors
pub mod Check
pub mod Ends
pub mod InBounds
pub mod Total
pub mod Holds
pub mod Order
pub mod SampleLoop
pub mod Visited
pub mod Outcomes
pub mod Aligned
use time_series_engine.Base.{
  ℕ, suc, ◌+◌, ◌==◌, ℤ, pos, ltb_ℤ, Bool, true, false, not, ◌&&◌, ◌||◌, Option, none, some, List,
  [], ◌∷◌, ◌++◌, String, is_nil, get_elem?, if◌then◌else◌, ltb,
}
use time_series_engine.Base.Assoc.{Table, lookup, has_id}
use time_series_engine.Floating.{Floating}
use time_series_engine.Operation.{make_operation_result, invalid_argument}
use time_series_engine.Types.{
  Timestamp, ProjectId, SequenceId, TimeseriesValue, ConstraintTerm, ConstraintRule,
  ConstraintTermValue, ConstraintViolation, ConstraintCheckResult, OperationCode, OperationResult,
}

-- `ConstraintCheckRange`
pub record ConstraintCheckRange : Type 0 where
  pub start_time : Timestamp
  pub end_time : Timestamp

-- A piece of a check: its value, an early return with an error, or an access outside a container
-- (`at` of a missing key, `operator[]` past the end), for which the code has no result.
pub data Step (E A : Type 0) : Type 0 where
  done : A → Step E A
  failed : E → Step E A
  fault : Step E A

infixl 5 ◌>>=◌
abbrev pub ◌>>=◌ : {E A B : Type 0} → Step E A → (A → Step E B) → Step E B
done a >>= k = k a
failed e >>= k = failed e
fault >>= k = fault

-- An access to a container.
abbrev pub access : {E A : Type 0} → Option A → Step E A
access none = fault
access (some a) = done a

-- `failure(internal::invalidArgument(error))` of a piece that leaves a text in `error`.
unfoldable pub with_error : {A : Type 0} → Step String A → Step OperationResult A
unfolding invalid_argument
with_error (done a) = done a
with_error (failed error) = failed (invalid_argument error)
with_error fault = fault

unfoldable pub failed_precondition : String → OperationResult
unfolding make_operation_result
failed_precondition message = make_operation_result OperationCode.failed_precondition 0 0 message

pub record ResolvedTermValue (D : Type 0) : Type 0 where
  pub sample_time : Timestamp
  pub value : D

-- `resolve_term`
abbrev pub Resolver : Type 0 → Type 0
Resolver D = ConstraintTerm D → SequenceId → ℕ → Step String (ResolvedTermValue D)

-- `variable_mapping`'s values, each once.
unfoldable pub distinct_sequences : Table SequenceId → List SequenceId → List SequenceId
unfolding has_id
distinct_sequences [] seen = seen
distinct_sequences ((variable, mapped_sequence) ∷ mapping) seen =
    distinct_sequences mapping
      (if has_id mapped_sequence seen then seen else mapped_sequence ∷ seen)

abbrev pub only : List SequenceId → Option SequenceId
only (id ∷ []) = some id
only _ = none

module _ {D : Type 0} where
  -- A default-constructed result.
  unfoldable pub empty_check : ProjectId → ConstraintCheckResult D
  unfolding make_operation_result
  empty_check project_id = record {
    operation = make_operation_result OperationCode.ok 0 0 "";
    project_id = project_id;
    evaluated_count = 0;
    pending_count = 0;
    satisfied = false;
    violations = [];
  }

  unfoldable pub failure : OperationResult → ConstraintCheckResult D
  unfolding empty_check
  failure operation = record (empty_check "") { operation = operation }

  unfoldable pub mapped_sequences_of :
      {E : Type 0} → Table SequenceId → List (ConstraintTerm D) → Step E (List SequenceId)
  unfolding lookup
  mapped_sequences_of mapping [] = done []
  mapped_sequences_of mapping (term ∷ terms) = access (lookup term.variable mapping) >>= λ id.
      mapped_sequences_of mapping terms >>= λ ids. done (id ∷ ids)

  unfoldable pub mapped_sequences_for_rule :
      {E : Type 0} → ConstraintRule D → Step E (List SequenceId)
  unfolding mapped_sequences_of
  mapped_sequences_for_rule rule = mapped_sequences_of rule.variable_mapping rule.terms

  unfoldable pub has_single_sequence : ConstraintRule D → Option SequenceId
  unfolding distinct_sequences
  has_single_sequence rule = only (distinct_sequences rule.variable_mapping [])

  -- The values that a violation lists.
  unfoldable pub term_values_of :
      List (ConstraintTerm D)
      → List SequenceId
      → List (ResolvedTermValue D)
      → List (ConstraintTermValue D)
  term_values_of (term ∷ terms) (id ∷ ids) (resolved ∷ rest) =
      record {
        variable = term.variable;
        sequence_id = id;
        coefficient = term.coefficient;
        sample_offset = term.sample_offset;
        sample_time = resolved.sample_time;
        value = resolved.value;
        aggregation = term.aggregation;
      }
      ∷ term_values_of terms ids rest
  term_values_of _ _ _ = []

module _ {D : Type 0} ⦃f : Floating D⦄ where
  unfoldable pub numeric_value : TimeseriesValue D → Option D
  numeric_value (TimeseriesValue.double d) = if f.is_finite d then some d else none
  numeric_value (TimeseriesValue.int64 i) = some (f.of_int i)
  numeric_value (TimeseriesValue.boolean b) = none
  numeric_value (TimeseriesValue.text s) = none

  abbrev pub above : D → Option D → Bool
  above value none = true
  above value (some bound) = f.le bound value

  abbrev pub below : D → Option D → Bool
  below value none = true
  below value (some bound) = f.le value bound

  unfoldable pub is_within_bounds : D → ConstraintRule D → Bool
  is_within_bounds value rule = above value rule.lower_bound && below value rule.upper_bound

  -- The loop over the terms: the sum so far, and what they resolve to.
  unfoldable pub resolve_terms :
      Resolver D
      → ℕ
      → List (ConstraintTerm D)
      → List SequenceId
      → D
      → Step String (D × List (ResolvedTermValue D))
  resolve_terms resolve anchor [] ids sum = done (sum, [])
  resolve_terms resolve anchor (term ∷ terms) [] sum = fault
  resolve_terms resolve anchor (term ∷ terms) (id ∷ ids) sum =
      resolve term id anchor >>= λ resolved.
      resolve_terms resolve anchor terms ids (f.add sum (f.mul term.coefficient resolved.value))
      >>= λ rest. done (rest.0, resolved ∷ rest.1)

  unfoldable pub violation_of :
      ConstraintRule D
      → List SequenceId
      → Timestamp
      → D
      → List (ResolvedTermValue D)
      → ConstraintViolation D
  unfolding term_values_of
  violation_of rule mapped_sequences anchor_time value resolved = record {
    constraint_id = rule.constraint_id;
    anchor_time = anchor_time;
    lower_bound = rule.lower_bound;
    upper_bound = rule.upper_bound;
    evaluated_value = value;
    term_values = term_values_of rule.terms mapped_sequences resolved;
    or_group_id = rule.or_group_id;
  }

  -- What an evaluated anchor adds to the result.
  unfoldable pub add_evaluation :
      ConstraintRule D
      → List SequenceId
      → Timestamp
      → D × List (ResolvedTermValue D)
      → ConstraintCheckResult D
      → ConstraintCheckResult D
  unfolding violation_of is_within_bounds
  add_evaluation rule mapped_sequences anchor_time (value, resolved) result = record result {
    evaluated_count = result.evaluated_count + 1;
    violations =
        if not (is_within_bounds value rule)
        then result.violations ++ violation_of rule mapped_sequences anchor_time value resolved ∷ []
        else result.violations;
  }

  unfoldable pub evaluate_rule_at :
      ConstraintRule D
      → List SequenceId
      → Timestamp
      → ℕ
      → Resolver D
      → ConstraintCheckResult D
      → Step String (ConstraintCheckResult D)
  unfolding resolve_terms add_evaluation
  evaluate_rule_at rule mapped_sequences anchor_time anchor resolve result =
      resolve_terms resolve anchor rule.terms mapped_sequences f.zero >>= λ evaluated.
      done (add_evaluation rule mapped_sequences anchor_time evaluated result)

-- ===== src/Engine/Combine.antt =====
-- `combineRuleOutcomes` of src/constraint_check_engine.cpp: the outcomes of the rules, grouped in
-- clauses.
pub mod Members
pub mod Keys
pub mod Entries
pub mod Grouped
pub mod Gathered
pub mod Satisfied
use time_series_engine.Base.{
  ℕ, zero, suc, ◌+◌, ◌/◌, ◌%◌, ◌==◌, ltb, Bool, true, false, not, ◌&&◌, ◌||◌, Option, none, some,
  List, [], ◌∷◌, ◌++◌, String, ◌<>◌, is_empty, is_nil, get_elem?, length, any, if◌then◌else◌,
}
use Prim.Native.String.{slice}
use time_series_engine.Base.Assoc.{Table, lookup, insert}
use time_series_engine.Operation
use time_series_engine.Types.{ProjectId, ConstraintRule, ConstraintViolation, ConstraintCheckResult}
use time_series_engine.Engine.{empty_check}

pub record RuleCheckOutcome (D : Type 0) : Type 0 where
  pub rule : ConstraintRule D
  pub result : ConstraintCheckResult D

-- `std::to_string` of a count; a number has fewer digits than `suc` of it.
unfoldable pub digits_of : ℕ → ℕ → String
digits_of zero n = ""
digits_of (suc fuel) n =
    let front = digits_of fuel (n / 10) in
    let digit = slice "0123456789" (n % 10) (n % 10 + 1) in
    if ltb n 10 then digit else front <> digit

unfoldable pub to_string : ℕ → String
unfolding digits_of
to_string n = digits_of (suc n) n

-- `clause_index` and `clauses`: a clause is its `outcome_indices`.
pub record Clauses : Type 0 where
  pub index : Table ℕ
  pub members : List (List ℕ)

-- `clauses[clause].outcome_indices.push_back(outcome)`
unfoldable pub push_at : ℕ → ℕ → List (List ℕ) → List (List ℕ)
push_at clause outcome [] = []
push_at zero outcome (c ∷ cs) = (c ++ outcome ∷ []) ∷ cs
push_at (suc clause) outcome (c ∷ cs) = c ∷ push_at clause outcome cs

-- `clause_index.emplace(key, clauses.size())`, the new clause, and the entry of the outcome.
unfoldable pub add_to_clause : String → ℕ → Clauses → Clauses
unfolding lookup insert push_at
add_to_clause key outcome c = elim (lookup key c.index) [
  | none ↦ record {
    index = insert key (length c.members) c.index;
    members = push_at (length c.members) outcome (c.members ++ [] ∷ []);
  }
  | some clause ↦ record c { members = push_at clause outcome c.members }
]

-- A rule with no group is a clause of its own.
unfoldable pub clause_key : {D : Type 0} → ConstraintRule D → String
clause_key rule =
    if is_empty rule.or_group_id
    then "\u{1f}" <> rule.constraint_id
    else "\u{1e}" <> rule.or_group_id

module _ {D : Type 0} where
  -- The loop over the outcomes, from an index on.
  unfoldable pub gather_clauses : ℕ → List (RuleCheckOutcome D) → Clauses → Clauses
  unfolding add_to_clause clause_key
  gather_clauses index [] c = c
  gather_clauses index (outcome ∷ outcomes) c =
      gather_clauses (suc index) outcomes (add_to_clause (clause_key outcome.rule) index c)

  unfoldable pub clauses_of : List (RuleCheckOutcome D) → Clauses
  unfolding gather_clauses
  clauses_of outcomes = gather_clauses 0 outcomes (record { index = []; members = [] })

  unfoldable pub evaluated_total : List (RuleCheckOutcome D) → ℕ
  evaluated_total [] = 0
  evaluated_total (outcome ∷ outcomes) = outcome.result.evaluated_count + evaluated_total outcomes

  unfoldable pub pending_total : List (RuleCheckOutcome D) → ℕ
  pending_total [] = 0
  pending_total (outcome ∷ outcomes) = outcome.result.pending_count + pending_total outcomes

  -- `outcomes[index].result.violations`
  unfoldable pub violations_at : List (RuleCheckOutcome D) → ℕ → List (ConstraintViolation D)
  violations_at outcomes index = elim (get_elem? outcomes index) [
    | none ↦ []
    | some outcome ↦ outcome.result.violations
  ]

  unfoldable pub clause_satisfied : List (RuleCheckOutcome D) → List ℕ → Bool
  unfolding violations_at
  clause_satisfied outcomes members = any (λ index. is_nil (violations_at outcomes index)) members

  -- The violations of a clause, moved into the result.
  unfoldable pub violations_of : List (RuleCheckOutcome D) → List ℕ → List (ConstraintViolation D)
  unfolding violations_at
  violations_of outcomes [] = []
  violations_of outcomes (index ∷ members) =
      violations_at outcomes index ++ violations_of outcomes members

  -- The loop over the clauses.
  unfoldable pub check_clauses :
      List (RuleCheckOutcome D) → List (List ℕ) → ConstraintCheckResult D → ConstraintCheckResult D
  unfolding clause_satisfied violations_of
  check_clauses outcomes [] result = result
  check_clauses outcomes (members ∷ clauses) result = check_clauses outcomes clauses (
      if clause_satisfied outcomes members then result else record result {
        satisfied = false;
        violations = result.violations ++ violations_of outcomes members;
      })

  unfoldable pub check_message : ConstraintCheckResult D → String
  unfolding to_string
  check_message result =
      let message =
        if result.satisfied
        then "constraint checks completed; all satisfied"
        else "constraint checks completed; violations found" in
      if not (result.pending_count == 0)
      then message
        <> "; "
        <> to_string result.pending_count
        <> " aligned samples pending because mapped sequence data was not available yet"
      else message

  unfoldable pub combine_rule_outcomes :
      ProjectId → List (RuleCheckOutcome D) → ConstraintCheckResult D
  unfolding empty_check clauses_of evaluated_total pending_total check_clauses check_message
  combine_rule_outcomes project_id outcomes =
      let result =
        check_clauses outcomes (clauses_of outcomes).members (record (empty_check project_id) {
          evaluated_count = evaluated_total outcomes;
          pending_count = pending_total outcomes;
          satisfied = true;
        }) in
      record result { operation = Operation.ok result.evaluated_count (check_message result) }

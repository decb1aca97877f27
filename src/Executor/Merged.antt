-- ===== src/Executor/Merged.antt =====
-- The results of the writers of a batch, merged by src/grpc/ingest_task_executor.cpp in the order in
-- which the writers finish.
use time_series_engine.Base.{
  ℕ, ◌+◌, ◌==◌, ◌≡◌, refl, Bool, true, false, not, ◌&&◌, ◌||◌, some, if◌then◌else◌, List, [], ◌∷◌,
  arith, ◌∙◌, ap, sym, ◌≤◌,
}
use time_series_engine.Types.{OperationCode, OperationResult}
use time_series_engine.Executor.{is_successful, is_partial, merged_code, merge_storage_result}

abbrev pub is_ok : OperationCode → Bool
is_ok OperationCode.ok = true
is_ok _ = false

-- The results that the writers complete with, merged one after the other into that of a first writer.
abbrev pub merge_all : OperationResult → List OperationResult → OperationResult
merge_all aggregate [] = aggregate
merge_all aggregate (part ∷ parts) = merge_all (merge_storage_result (some aggregate) part) parts

abbrev pub are_ok : List OperationResult → Bool
are_ok [] = true
are_ok (part ∷ parts) = is_ok part.code && are_ok parts

abbrev pub successes : List OperationResult → ℕ
successes [] = 0
successes (part ∷ parts) = part.success_count + successes parts

abbrev pub failures : List OperationResult → ℕ
failures [] = 0
failures (part ∷ parts) = part.failed_count + failures parts

-- The code of a merge, by the two codes and whether nothing succeeded.
abbrev code_of : OperationCode → OperationCode → Bool → OperationCode
unfolding is_successful is_partial
code_of first second idle =
    if not (is_successful first) || not (is_successful second)
    then if idle then first else OperationCode.partial_success
    else if is_partial first || is_partial second
    then OperationCode.partial_success
    else first

failed-is_ok :
    (first : OperationCode) (idle : Bool)
    → is_ok first ≡ false
    → is_ok (if idle then first else OperationCode.partial_success) ≡ false
failed-is_ok first true e = e
failed-is_ok first false e = refl

partial-is_ok :
    (failed idle : Bool)
    → is_ok (
        if failed
        then (if idle then OperationCode.partial_success else OperationCode.partial_success)
        else OperationCode.partial_success)
      ≡ false
partial-is_ok true true = refl
partial-is_ok true false = refl
partial-is_ok false idle = refl

code_of-is_ok :
    (first second : OperationCode) (idle : Bool)
    → (is_ok first ≡ true → idle ≡ false)
    → is_ok (code_of first second idle) ≡ (is_ok first && is_ok second)
unfolding is_successful is_partial
code_of-is_ok OperationCode.partial_success second idle busy =
    partial-is_ok (not (is_successful second)) idle
code_of-is_ok OperationCode.ok OperationCode.ok idle busy = refl
code_of-is_ok OperationCode.ok OperationCode.partial_success idle busy = refl
code_of-is_ok OperationCode.ok OperationCode.invalid_argument idle busy =
    ap (λ i. is_ok (if i then OperationCode.ok else OperationCode.partial_success)) (busy refl)
code_of-is_ok OperationCode.ok OperationCode.not_found idle busy =
    ap (λ i. is_ok (if i then OperationCode.ok else OperationCode.partial_success)) (busy refl)
code_of-is_ok OperationCode.ok OperationCode.failed_precondition idle busy =
    ap (λ i. is_ok (if i then OperationCode.ok else OperationCode.partial_success)) (busy refl)
code_of-is_ok OperationCode.ok OperationCode.unavailable idle busy =
    ap (λ i. is_ok (if i then OperationCode.ok else OperationCode.partial_success)) (busy refl)
code_of-is_ok OperationCode.ok OperationCode.internal_error idle busy =
    ap (λ i. is_ok (if i then OperationCode.ok else OperationCode.partial_success)) (busy refl)
code_of-is_ok OperationCode.ok OperationCode.not_implemented idle busy =
    ap (λ i. is_ok (if i then OperationCode.ok else OperationCode.partial_success)) (busy refl)
code_of-is_ok OperationCode.invalid_argument second idle busy =
    failed-is_ok OperationCode.invalid_argument idle refl
code_of-is_ok OperationCode.not_found second idle busy =
    failed-is_ok OperationCode.not_found idle refl
code_of-is_ok OperationCode.failed_precondition second idle busy =
    failed-is_ok OperationCode.failed_precondition idle refl
code_of-is_ok OperationCode.unavailable second idle busy =
    failed-is_ok OperationCode.unavailable idle refl
code_of-is_ok OperationCode.internal_error second idle busy =
    failed-is_ok OperationCode.internal_error idle refl
code_of-is_ok OperationCode.not_implemented second idle busy =
    failed-is_ok OperationCode.not_implemented idle refl

-- If the result is Ok, something is stored.
abbrev pub HasStored : OperationResult → Type 0
HasStored result = is_ok result.code ≡ true → 1 ≤ result.success_count

sum_busy : (n m : ℕ) → 1 ≤ n → (n + m == 0) ≡ false
sum_busy n m some_stored = ground arith

merge-is_ok :
    (aggregate part : OperationResult)
    → HasStored aggregate
    → is_ok (merge_storage_result (some aggregate) part).code
      ≡ (is_ok aggregate.code && is_ok part.code)
unfolding merge_storage_result merged_code
merge-is_ok aggregate part stored =
    code_of-is_ok aggregate.code part.code (aggregate.success_count + part.success_count == 0)
      (λ e. sum_busy aggregate.success_count part.success_count (stored e))

and_left : (a b : Bool) → (a && b) ≡ true → a ≡ true
and_left true b e = refl
and_left false b e = e

and_true : (a : Bool) → (a && true) ≡ a
and_true true = refl
and_true false = refl

and_assoc : (a b c : Bool) → ((a && b) && c) ≡ (a && (b && c))
and_assoc true b c = refl
and_assoc false b c = refl

merge-HasStored :
    (aggregate part : OperationResult)
    → HasStored aggregate
    → HasStored (merge_storage_result (some aggregate) part)
unfolding merge_storage_result
merge-HasStored aggregate part stored e =
    let first = stored (
      and_left (is_ok aggregate.code) (is_ok part.code)
        (sym (merge-is_ok aggregate part stored) ∙ e)) in
    omega arith

-- If the writer whose result comes first has stored something where it reports Ok, the result merged
-- from all writers is Ok exactly if every writer reports Ok, and counts the successes and the failures
-- of all of them.
pub merge_all-all :
    (first : OperationResult) (parts : List OperationResult)
    → HasStored first
    → (is_ok (merge_all first parts).code ≡ are_ok (first ∷ parts))
      × (((merge_all first parts).success_count ≡ successes (first ∷ parts))
          × ((merge_all first parts).failed_count ≡ failures (first ∷ parts)))
unfolding merge_storage_result
merge_all-all first [] stored = (sym (and_true (is_ok first.code)), (omega arith, omega arith))
merge_all-all first (part ∷ parts) stored =
    let (codes, (succeeded, failed)) =
      merge_all-all (merge_storage_result (some first) part) parts
        (merge-HasStored first part stored) in
    (
      codes
          ∙ ap (λ b. b && are_ok parts) (merge-is_ok first part stored)
          ∙ and_assoc (is_ok first.code) (is_ok part.code) (are_ok parts),
      (omega arith, omega arith),
    )

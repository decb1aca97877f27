-- ===== src/Executor/Configured.antt =====
-- The sizes that src/grpc/ingest_task_executor.cpp reads from its environment, against decimal numbers.
use Prim.Native.Char.{code}
use time_series_engine.Base.{
  ℕ, ◌+◌, ◌-◌, ◌*◌, ◌/◌, ◌==◌, ◌≤◌, ◌<◌, ◌≡◌, refl, ltb, Bool, true, false, ◌||◌, Option, none,
  some, String, is_empty, if◌then◌else◌, arith, sym, ◌∙◌,
}
use time_series_engine.Executor.{scan_digits, configured_size}

-- The number that a text of decimal digits writes, however large.
abbrev pub decimal : String → ℕ → Option ℕ
decimal String.[] value = some value
decimal (String.◌∷◌ c text) value =
    let rest = decimal text (value * 10 + (code c - 48)) in
    if ltb (code c) 48 || ltb 57 (code c) then none else rest

-- A number is taken if it is in the range.
abbrev pub in_range : Option ℕ → ℕ → ℕ → ℕ
in_range none fallback maximum = fallback
in_range (some value) fallback maximum = if value == 0 || ltb maximum value then fallback else value

keep-some :
    (bad : Bool) (rest : Option ℕ) (n : ℕ) → (if bad then none else rest) ≡ some n → rest ≡ some n
keep-some bad rest n e = ground arith

decimal-le : (text : String) (value n : ℕ) → decimal text value ≡ some n → value ≤ n
decimal-le String.[] value n e = ground arith
decimal-le (String.◌∷◌ c text) value n e =
    let ih = decimal-le text (value * 10 + (code c - 48)) n (
      keep-some (ltb (code c) 48 || ltb 57 (code c)) (decimal text (value * 10 + (code c - 48))) n
        e) in
    omega arith

in_range-large :
    (value fallback maximum : ℕ)
    → maximum < value
    → in_range (some value) fallback maximum ≡ fallback
in_range-large value fallback maximum above = ground arith

read-large :
    (read : Option ℕ) (value fallback maximum : ℕ)
    → maximum < value
    → ((n : ℕ) → read ≡ some n → value ≤ n)
    → in_range read fallback maximum ≡ fallback
read-large none value fallback maximum above least = refl
read-large (some n) value fallback maximum above least =
    let reached = least n refl in in_range-large n fallback maximum (omega arith)

step-large :
    (value digit maximum : ℕ)
    → digit ≤ 9
    → 9 ≤ maximum
    → (maximum - digit) / 10 < value
    → maximum < value * 10 + digit
step-large value digit maximum small large above = omega arith

scan_step :
    (bad above : Bool) (rest read : Option ℕ) (fallback maximum : ℕ)
    → in_range rest fallback maximum ≡ in_range read fallback maximum
    → (bad ≡ false → above ≡ true → in_range read fallback maximum ≡ fallback)
    → in_range (if bad then none else if above then none else rest) fallback maximum
      ≡ in_range (if bad then none else read) fallback maximum
scan_step true above rest read fallback maximum same large = refl
scan_step false false rest read fallback maximum same large = same
scan_step false true rest read fallback maximum same large = sym (large refl refl)

digit-small : (n : ℕ) → (ltb n 48 || ltb 57 n) ≡ false → n - 48 ≤ 9
digit-small n e = ground arith

scan_digits-decimal :
    (text : String) (value fallback maximum : ℕ)
    → 9 ≤ maximum
    → in_range (scan_digits maximum text value) fallback maximum
      ≡ in_range (decimal text value) fallback maximum
unfolding scan_digits
scan_digits-decimal String.[] value fallback maximum nine = refl
scan_digits-decimal (String.◌∷◌ c text) value fallback maximum nine =
    let digit = code c - 48 in
    let next = value * 10 + digit in
    scan_step (ltb (code c) 48 || ltb 57 (code c)) (ltb ((maximum - digit) / 10) value)
      (scan_digits maximum text next) (decimal text next) fallback maximum
      (scan_digits-decimal text next fallback maximum nine)
      (λ good above.
        read-large (decimal text next) next fallback maximum
          (step-large value digit maximum (digit-small (code c) good) nine (ground arith))
          (λ n. decimal-le text next n))

in_range-elim :
    (scanned : Option ℕ) (fallback maximum : ℕ)
    → (elim scanned [
      | none ↦ fallback
      | some value ↦ if value == 0 || ltb maximum value then fallback else value
    ])
      ≡ in_range scanned fallback maximum
in_range-elim none fallback maximum = refl
in_range-elim (some value) fallback maximum = refl

-- For a maximum of at least 9, a size from the environment is the decimal number that the text, not
-- empty, writes, if that is from 1 to the maximum, and the fallback for every other text, however many
-- digits it has.
pub configured_size-decimal :
    (text : String) (fallback maximum : ℕ)
    → 9 ≤ maximum
    → is_empty text ≡ false
    → configured_size (some text) fallback maximum ≡ in_range (decimal text 0) fallback maximum
unfolding configured_size
configured_size-decimal text fallback maximum nine filled = rw filled (
    in_range-elim (scan_digits maximum text 0) fallback maximum
    ∙ scan_digits-decimal text 0 fallback maximum nine)

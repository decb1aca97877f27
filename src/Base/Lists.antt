-- ===== src/Base/Lists.antt =====
-- Lists measured and indexed by native numbers, and the predicates on their entries.
use Prim.Native.Nat.{ℕ, zero, suc, ◌+◌, ◌<◌}
use mathlib.Core.Path.{◌≡◌, refl, subst}
use mathlib.Core.Logic.{◌⊎◌, inl, inr}
use mathlib.Core.Bool.{Bool, true, false, ◌||◌}
use mathlib.Core.List.{List, [], ◌∷◌, ◌++◌}
use mathlib.Core.Option.{Option, none, some}
use native.Mathlib.Omega.{arith}
use time_series_engine.Base.Tests.{◌==◌, if◌then◌else◌}

module _ {ℓ} {A : Type ℓ} where
  abbrev pub length : List A → ℕ
  length [] = 0
  length (x ∷ xs) = suc (length xs)

  -- `empty()`
  abbrev pub is_nil : List A → Bool
  is_nil [] = true
  is_nil (x ∷ xs) = false

  abbrev pub get_elem? : List A → ℕ → Option A
  get_elem? [] i = none
  get_elem? (x ∷ xs) zero = some x
  get_elem? (x ∷ xs) (suc i) = get_elem? xs i

  -- A write out of bounds changes nothing.
  abbrev pub set : List A → ℕ → A → List A
  set [] i v = []
  set (x ∷ xs) zero v = v ∷ xs
  set (x ∷ xs) (suc i) v = x ∷ set xs i v

  abbrev pub take : ℕ → List A → List A
  take zero xs = []
  take (suc n) [] = []
  take (suc n) (x ∷ xs) = x ∷ take n xs

  abbrev pub drop : ℕ → List A → List A
  drop zero xs = xs
  drop (suc n) [] = []
  drop (suc n) (x ∷ xs) = drop n xs

  abbrev pub replicate : ℕ → A → List A
  replicate zero a = []
  replicate (suc n) a = a ∷ replicate n a

  abbrev pub All {κ} : (A → Type κ) → List A → Type κ
  All P [] = Unit
  All P (x ∷ xs) = P x × All P xs

  -- `std::any_of`
  abbrev pub any : (A → Bool) → List A → Bool
  any p [] = false
  any p (x ∷ xs) = p x || any p xs

module _ {ℓ} {A : Type ℓ} where
  pub length-append : (xs ys : List A) → length (xs ++ ys) ≡ length xs + length ys
  length-append [] ys = omega arith
  length-append (x ∷ xs) ys = omega (arith, length-append xs ys)

  pub All-append {κ} :
      (Holds : A → Type κ) (front back : List A)
      → All Holds front
      → All Holds back
      → All Holds (front ++ back)
  All-append Holds (a ∷ front) back (first, others) later =
      (first, All-append Holds front back others later)
  All-append Holds [] back none_here later = later

  pub get_elem?-lt : (xs : List A) (i : ℕ) {x : A} → get_elem? xs i ≡ some x → i < length xs
  get_elem?-lt [] i e = absurd (cc)
  get_elem?-lt (y ∷ xs) zero e = omega arith
  get_elem?-lt (y ∷ xs) (suc i) e = omega (arith, get_elem?-lt xs i e)

  pub get_elem?-below : (xs : List A) (i : ℕ) → i < length xs → (x : A) × (get_elem? xs i ≡ some x)
  get_elem?-below [] i lt = absurd (omega arith)
  get_elem?-below (x ∷ xs) zero lt = (x, refl)
  get_elem?-below (x ∷ xs) (suc i) lt = get_elem?-below xs i (omega arith)

-- An entry of a list, with its place.
abbrev pub In : {A : Type 0} → A → List A → Type 0
In a [] = ⊥
In a (b ∷ bs) = (b ≡ a) ⊎ In a bs

module _ {A : Type 0} where
  pub In-append : (a : A) (front back : List A) → In a front → In a (front ++ back)
  In-append a [] back h = elim h [ ]
  In-append a (b ∷ front) back (inl e) = inl e
  In-append a (b ∷ front) back (inr h) = inr (In-append a front back h)

  pub In-last : (a : A) (front : List A) → In a (front ++ a ∷ [])
  In-last a [] = inl refl
  In-last a (b ∷ front) = inr (In-last a front)

  pub All-In : (Holds : A → Type 0) (a : A) (bs : List A) → All Holds bs → In a bs → Holds a
  All-In Holds a [] all h = elim h [ ]
  All-In Holds a (b ∷ bs) all (inl e) = subst Holds e all.0
  All-In Holds a (b ∷ bs) all (inr h) = All-In Holds a bs all.1 h

  pub get_elem?-snoc :
      (xs : List A) (x : A) (c : ℕ)
      → get_elem? (xs ++ x ∷ []) c ≡ (if length xs == c then some x else get_elem? xs c)
  get_elem?-snoc [] x zero = refl
  get_elem?-snoc [] x (suc c) = ground arith
  get_elem?-snoc (y ∷ xs) x zero = ground arith
  get_elem?-snoc (y ∷ xs) x (suc c) = ground (arith, get_elem?-snoc xs x c)

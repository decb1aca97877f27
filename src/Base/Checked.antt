-- ===== src/Base/Checked.antt =====
-- Loops and checks that return at the first error.
use mathlib.Core.Path.{◌≡◌, refl}
use mathlib.Core.Logic.{◌⊎◌, inl, inr}
use mathlib.Core.Option.{Option, none, some}
use mathlib.Core.List.{List, [], ◌∷◌}
use time_series_engine.Base.Tests.{Option-cases}
use time_series_engine.Base.Lists.{All}
use time_series_engine.Base.Text.{String}

-- A check that fails with the text that `*error` receives.
pub data Checked (A : Type 0) : Type 0 where
  accepted : A → Checked A
  rejected : String → Checked A

infixl 5 ◌>>=◌
abbrev pub ◌>>=◌ : {A B : Type 0} → Checked A → (A → Checked B) → Checked B
accepted a >>= k = k a
rejected e >>= k = rejected e

pub >>=-eq-accepted :
    {A B : Type 0} (m : Checked A) (k : A → Checked B) {b : B}
    → (m >>= k) ≡ accepted b
    → (a : A) × (m ≡ accepted a) × (k a ≡ accepted b)
>>=-eq-accepted (accepted a) k h = (a, refl, h)
>>=-eq-accepted (rejected e) k h = cc

pub Checked-cases :
    {A : Type 0} (r : Checked A) → ((a : A) × (r ≡ accepted a)) ⊎ ((e : String) × (r ≡ rejected e))
Checked-cases (accepted a) = inl (a, refl)
Checked-cases (rejected e) = inr (e, refl)

-- The first error of a loop that returns at the first error.
unfoldable pub first_error {ℓ} : {A : Type ℓ} → (A → Option String) → List A → Option String
first_error check [] = none
first_error check (x ∷ xs) =
    let rest = first_error check xs in elim (check x) [ none ↦ rest | some e ↦ some e ]

pub first_error-none {ℓ} :
    {A : Type ℓ} (check : A → Option String) (xs : List A)
    → first_error check xs ≡ none
    → All (λ x. check x ≡ none) xs
unfolding first_error
first_error-none check [] h = tt
first_error-none check (x ∷ xs) h = elim (Option-cases (check x)) [
  | inl e ↦ (e, first_error-none check xs (rw (e, first_error) at h))
  | inr (m, e) ↦ absurd (cc (rw (e, first_error) at h))
]

pub none-first_error {ℓ} :
    {A : Type ℓ} (check : A → Option String) (xs : List A)
    → All (λ x. check x ≡ none) xs
    → first_error check xs ≡ none
unfolding first_error
none-first_error check [] h = refl
none-first_error check (x ∷ xs) h = rw (h.0, first_error) (none-first_error check xs h.1)

pub All-map {ℓ κ μ} :
    {A : Type ℓ} {P : A → Type κ} {Q : A → Type μ} (f : (a : A) → P a → Q a) (xs : List A)
    → All P xs
    → All Q xs
All-map f [] h = tt
All-map f (x ∷ xs) h = (f x h.0, All-map f xs h.1)

-- ===== src/Engine/Ends.antt =====
-- Pieces of a check of src/constraint_check_engine.cpp that access no container outside its bounds.
use time_series_engine.Base.{
  ℕ, zero, suc, ◌+◌, ◌-◌, ◌<◌, ◌≤◌, ◌≡◌, refl, ◌⊎◌, Bool, true, false, Option, none, some, List, [],
  ◌∷◌, String, is_some, get_elem?, length, if◌then◌else◌, arith,
}
use time_series_engine.Engine.{Step, done, failed, fault, ◌>>=◌, access, with_error}

-- No access outside a container.
abbrev pub Ends : {E A : Type 0} → Step E A → Type 0
Ends (done a) = Unit
Ends (failed e) = Unit
Ends fault = ⊥

pub Ends->>= :
    {E A B : Type 0} (m : Step E A) (k : A → Step E B)
    → Ends m
    → ((a : A) → m ≡ done a → Ends (k a))
    → Ends (m >>= k)
Ends->>= (done a) k m_ends k_ends = k_ends a refl
Ends->>= (failed e) k m_ends k_ends = tt
Ends->>= fault k m_ends k_ends = m_ends

pub Ends-with_error : {A : Type 0} (m : Step String A) → Ends m → Ends (with_error m)
unfolding with_error
Ends-with_error (done a) h = tt
Ends-with_error (failed e) h = tt
Ends-with_error fault h = h

pub Ends-if :
    {E A : Type 0} (b : Bool) (x y : Step E A) → Ends x → Ends y → Ends (if b then x else y)
Ends-if true x y hx hy = hx
Ends-if false x y hx hy = hy

pub Ends-elim :
    {E A B : Type 0} (o : Option A) (x : Step E B) (k : A → Step E B)
    → Ends x
    → ((a : A) → Ends (k a))
    → Ends (elim o [ none ↦ x | some a ↦ k a ])
Ends-elim none x k hx hk = hx
Ends-elim (some a) x k hx hk = hk a

pub >>=-eq-done :
    {E A B : Type 0} (m : Step E A) (k : A → Step E B) {b : B}
    → (m >>= k) ≡ done b
    → (a : A) × (m ≡ done a) × (k a ≡ done b)
>>=-eq-done (done a) k h = (a, refl, h)
>>=-eq-done (failed e) k h = absurd (cc)
>>=-eq-done fault k h = absurd (cc)

pub Ends-access :
    (E : Type 0) {A : Type 0} (o : Option A) → is_some o ≡ true → Ends {E = E} (access o)
Ends-access E none e = absurd (cc)
Ends-access E (some a) e = tt

pub is_some-get_elem? :
    {A : Type 0} (xs : List A) (i : ℕ) → i < length xs → is_some (get_elem? xs i) ≡ true
is_some-get_elem? [] i lt = absurd (omega arith)
is_some-get_elem? (x ∷ xs) zero lt = refl
is_some-get_elem? (x ∷ xs) (suc i) lt = is_some-get_elem? xs i (omega arith)

pub fits_or_none : (n first : ℕ) → (n - first ≡ 0) ⊎ (first + (n - first) ≤ n)
fits_or_none n first = ground arith

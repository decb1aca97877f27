-- ===== src/Window/Lookup.antt =====
-- A vector of points of src/window_service.cpp as a map from times to points.
use time_series_engine.Base.{
  ℕ, zero, suc, ◌≡◌, refl, Option, none, some, List, [], ◌∷◌, ◌++◌, take, drop, All, ◌≤ℤ◌, ◌<ℤ◌,
  eqb_ℤ, if◌then◌else◌, arith, All-append,
}
use time_series_engine.Types.{Timestamp, RawTimeseriesPoint}

abbrev pub first_some {ℓ} : {A : Type ℓ} → Option A → Option A → Option A
first_some none o = o
first_some (some a) o = some a

module _ {D : Type 0} where
  -- The point of a time.
  abbrev pub find_at : Timestamp → List (RawTimeseriesPoint D) → Option (RawTimeseriesPoint D)
  find_at t [] = none
  find_at t (p ∷ ps) = if eqb_ℤ p.time t then some p else find_at t ps

  abbrev pub Above : Timestamp → List (RawTimeseriesPoint D) → Type 0
  Above t = All (λ q. t <ℤ q.time)

  -- In the order of time, no time twice.
  abbrev pub Ascending : List (RawTimeseriesPoint D) → Type 0
  Ascending [] = Unit
  Ascending (p ∷ ps) = Above p.time ps × Ascending ps

  pub find_at-Above :
      (t u : Timestamp) (ps : List (RawTimeseriesPoint D))
      → Above t ps
      → u ≤ℤ t
      → find_at u ps ≡ none
  find_at-Above t u [] a h = refl
  find_at-Above t u (p ∷ ps) a h = ground (arith, find_at-Above t u ps a.1 h)

  pub Above-le :
      (t u : Timestamp) (ps : List (RawTimeseriesPoint D)) → u ≤ℤ t → Above t ps → Above u ps
  Above-le t u [] h a = tt
  Above-le t u (p ∷ ps) h a = (omega arith, Above-le t u ps h a.1)

  pub find_at-append :
      (u : Timestamp) (ps qs : List (RawTimeseriesPoint D))
      → find_at u (ps ++ qs) ≡ first_some (find_at u ps) (find_at u qs)
  find_at-append u [] qs = refl
  find_at-append u (p ∷ ps) qs = ground (arith, find_at-append u ps qs)

module _ {D : Type 0} where
  pub Ascending-append :
      (ps qs : List (RawTimeseriesPoint D)) (t : Timestamp)
      → Ascending ps
      → All (λ p. p.time ≤ℤ t) ps
      → Above t qs
      → Ascending qs
      → Ascending (ps ++ qs)
  Ascending-append [] qs t a b c d = d
  Ascending-append (p ∷ ps) qs t a b c d =
      (All-append _ ps qs a.0 (Above-le t p.time qs b.0 c), Ascending-append ps qs t a.1 b.1 c d)

  pub Ascending-drop :
      (n : ℕ) (ps : List (RawTimeseriesPoint D)) → Ascending ps → Ascending (drop n ps)
  Ascending-drop zero ps a = a
  Ascending-drop (suc n) [] a = tt
  Ascending-drop (suc n) (p ∷ ps) a = Ascending-drop n ps a.1

pub All-drop {ℓ κ} :
    {A : Type ℓ} (P : A → Type κ) (n : ℕ) (xs : List A) → All P xs → All P (drop n xs)
All-drop P zero xs a = a
All-drop P (suc n) [] a = tt
All-drop P (suc n) (x ∷ xs) a = All-drop P n xs a.1

pub All-take {ℓ κ} :
    {A : Type ℓ} (P : A → Type κ) (n : ℕ) (xs : List A) → All P xs → All P (take n xs)
All-take P zero xs a = tt
All-take P (suc n) [] a = tt
All-take P (suc n) (x ∷ xs) a = (a.0, All-take P n xs a.1)

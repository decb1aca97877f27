-- ===== src/Window/Later.antt =====
-- Points that are later than all that a window of src/window_service.cpp holds: behind the vector they
-- are the same as in front of it.
use time_series_engine.Base.{
  ℕ, zero, suc, ◌≤◌, ◌≡◌, ◌⊎◌, refl, sym, ap, subst, true, Option, none, some, List, [], ◌∷◌, ◌++◌,
  All, ◌≤ℤ◌, ◌<ℤ◌, eqb_ℤ, eq_of_parts, arith, Bool-cases, inl, inr, drop, length,
}
use time_series_engine.Base.Checked.{All-map}
use time_series_engine.Types.{Timestamp, RawTimeseriesPoint}
use time_series_engine.Window.Sequence.{is_later}
use time_series_engine.Window.Lookup.{first_some, find_at, Ascending, Ascending-append}
use time_series_engine.Window.Invariant.{Reaches, AllReached}

-- `time > *latest_time`, or no latest time.
abbrev pub Later : Option Timestamp → Timestamp → Type 0
Later none t = Unit
Later (some latest) t = latest <ℤ t

pub Reaches-Later :
    (latest : Option Timestamp) (t u : Timestamp) → Reaches latest t → Later latest u → t ≤ℤ u
Reaches-Later none t u r l = absurd r
Reaches-Later (some latest) t u r l = omega arith

first_some-none {ℓ} : {A : Type ℓ} (o : Option A) → first_some o none ≡ o
first_some-none none = refl
first_some-none (some a) = refl

pub first_some_assoc {ℓ} :
    {A : Type ℓ} (a b c : Option A) → first_some (first_some a b) c ≡ first_some a (first_some b c)
first_some_assoc none b c = refl
first_some_assoc (some a) b c = refl

pub drop-append {ℓ} :
    {A : Type ℓ} (n : ℕ) (xs ys : List A) → n ≤ length xs → drop n (xs ++ ys) ≡ drop n xs ++ ys
drop-append zero xs ys h = refl
drop-append (suc n) [] ys h = absurd (omega arith)
drop-append (suc n) (x ∷ xs) ys h = drop-append n xs ys (omega arith)

module _ {D : Type 0} where
  pub append_one-Ascending :
      (latest : Option Timestamp) (p : RawTimeseriesPoint D) (ps : List (RawTimeseriesPoint D))
      → AllReached latest ps
      → Later latest p.time
      → Ascending ps
      → Ascending (ps ++ p ∷ [])
  append_one-Ascending none p [] r l a = (tt, tt)
  append_one-Ascending none p (q ∷ ps) r l a = absurd r.0
  append_one-Ascending (some latest) p ps r l a =
      Ascending-append ps (p ∷ []) latest a r (l, tt) (tt, tt)

  pub find_at-Later :
      (latest : Option Timestamp) (t : Timestamp) (ps : List (RawTimeseriesPoint D))
      → AllReached latest ps
      → Later latest t
      → find_at t ps ≡ none
  find_at-Later latest t [] r l = refl
  find_at-Later none t (p ∷ ps) r l = absurd r.0
  find_at-Later (some latest) t (p ∷ ps) r l =
      ground (arith, find_at-Later (some latest) t ps r.1 l)

  found-Later :
      (latest : Option Timestamp) (t : Timestamp) (ps : List (RawTimeseriesPoint D))
      → All (λ p. Later latest p.time) ps
      → (find_at t ps ≡ none) ⊎ Later latest t
  found-Later latest t [] l = inl refl
  found-Later latest t (p ∷ ps) l = elim (Bool-cases (eqb_ℤ p.time t)) [
    | inl e ↦ inr (subst (Later latest) (eq_of_parts p.time t (ground arith)) l.0)
    | inr e ↦ rw e (found-Later latest t ps l.1)
  ]

  -- Behind everything else, and over everything else: for later points it is the same.
  pub appended-first :
      (latest : Option Timestamp) (t : Timestamp) (ps late points : List (RawTimeseriesPoint D))
      → All (λ p. Later latest p.time) ps
      → AllReached latest late
      → AllReached latest points
      → first_some (find_at t late) (first_some (find_at t points) (find_at t ps))
        ≡ first_some (find_at t ps) (first_some (find_at t late) (find_at t points))
  appended-first latest t ps late points l r r' = elim (found-Later latest t ps l) [
    | inl e ↦ rw e (ap (first_some (find_at t late)) (first_some-none (find_at t points)))
    | inr later ↦
        rw (find_at-Later latest t late r later, find_at-Later latest t points r' later)
          (sym (first_some-none (find_at t ps)))
  ]

  -- The front's test covers all that follow it.
  pub is_later-Later :
      (incoming : List (RawTimeseriesPoint D)) (latest : Option Timestamp)
      → Ascending incoming
      → is_later incoming latest ≡ true
      → All (λ p. Later latest p.time) incoming
  unfolding is_later
  is_later-Later [] latest a e = tt
  is_later-Later (q ∷ incoming) none a e = (tt, All-map (λ p above. tt) incoming a.0)
  is_later-Later (q ∷ incoming) (some latest) a e =
      let front : latest <ℤ q.time = ground arith in
      (front, All-map (λ p above. omega arith) incoming a.0)

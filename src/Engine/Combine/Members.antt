-- ===== src/Engine/Combine/Members.antt =====
-- Lists of clauses in src/constraint_check_engine.cpp: a clause is pushed to at an index.
use time_series_engine.Base.{
  ℕ, zero, suc, ◌==◌, ◌≡◌, refl, Bool, Option, none, some, List, [], ◌∷◌, ◌++◌, get_elem?,
  if◌then◌else◌, arith,
}
use time_series_engine.Engine.Combine.{push_at}

-- What `push_at` leaves at a place.
abbrev pub pushed : Bool → ℕ → Option (List ℕ) → Option (List ℕ)
pushed here outcome none = none
pushed here outcome (some members) = some (if here then members ++ outcome ∷ [] else members)

pub get_elem?-push_at :
    (clause outcome c : ℕ) (clauses : List (List ℕ))
    → get_elem? (push_at clause outcome clauses) c
      ≡ pushed (clause == c) outcome (get_elem? clauses c)
unfolding push_at
get_elem?-push_at clause outcome c [] = refl
get_elem?-push_at zero outcome zero (m ∷ ms) = refl
get_elem?-push_at zero outcome (suc c) (m ∷ ms) = ground arith
get_elem?-push_at (suc clause) outcome zero (m ∷ ms) = ground arith
get_elem?-push_at (suc clause) outcome (suc c) (m ∷ ms) =
    ground (arith, get_elem?-push_at clause outcome c ms)

-- ===== src/Window/Context.antt =====
-- The context of a range query on one sequence's window in src/window_service.cpp.
use time_series_engine.Base.{
  ℕ, zero, suc, ◌≡◌, refl, ap, true, false, List, [], ◌∷◌, take, ltb_ℤ, leb_ℤ, eqb_ℤ, arith,
  Bool-cases, inl, inr,
}
use time_series_engine.Types.{Timestamp, RawTimeseriesPoint}
use time_series_engine.Window.Query.{interleave, following}
use time_series_engine.Window.View.{Keyed}

module _ {D : Type 0} where
  -- The context behind a range is the beginning of what a range query without an end would answer
  -- from there: as many points as asked for, corrections taken over the points they replace.
  pub following-take :
      (n : ℕ) (points : List (RawTimeseriesPoint D))
      (late : List (Timestamp × RawTimeseriesPoint D))
      → Keyed late
      → following n points late ≡ take n (interleave points late)
  unfolding following interleave
  following-take zero points late k = refl
  following-take (suc n) [] [] k = refl
  following-take (suc n) [] ((t, q) ∷ late) k = ap (λ l. q ∷ l) (following-take n [] late k.1)
  following-take (suc n) (p ∷ points) [] k = ap (λ l. p ∷ l) (following-take n points [] tt)
  following-take (suc n) (p ∷ points) ((t, q) ∷ late) k =
      let own : t ≡ q.time = k.0 in
      elim (Bool-cases (ltb_ℤ p.time t)) [
        | inl e ↦
            let first : leb_ℤ q.time p.time ≡ false = ground (arith, own) in
            rw (following, interleave, e, first)
              (ap (λ l. p ∷ l) (following-take n points ((t, q) ∷ late) k))
        | inr e ↦
            let first : leb_ℤ q.time p.time ≡ true = ground (arith, own) in
            elim (Bool-cases (ltb_ℤ t p.time)) [
              | inl j ↦
                  let apart : eqb_ℤ p.time q.time ≡ false = ground (arith, own) in
                  rw (following, interleave, e, j, first, apart)
                    (ap (λ l. q ∷ l) (following-take n (p ∷ points) late k.1))
              | inr j ↦
                  let same : eqb_ℤ p.time q.time ≡ true = ground (arith, own) in
                  rw (following, interleave, e, j, first, same)
                    (ap (λ l. q ∷ l) (following-take n points late k.1))
            ]
      ]

-- ===== src/Window/Lasting.antt =====
-- The monotone deques of src/window_service.cpp: the entries that no later entry beats.
use time_series_engine.Base.{
  ◌≡◌, refl, ◌∙◌, sym, ap, subst, Bool, true, false, ◌||◌, List, [], ◌∷◌, ◌++◌, if◌then◌else◌,
  arith, Bool-cases, inl, inr, All, any, ◌<ℤ◌,
}
use time_series_engine.Base.Checked.{All-map}
use time_series_engine.Types.{Timestamp}
use time_series_engine.Window.Statistics.{put_back, pop_back_while, pop_front_at}

-- A comparison that decides between any two finite values, and that can be chained.
pub record IsRanking {D : Type 0} (finite : D → Bool) (beats : D → D → Bool) : Type 0 where
  pub total : (a b : D) → finite a ≡ true → finite b ≡ true → beats a b ≡ false → beats b a ≡ true
  pub chained : (a b c : D) → beats a b ≡ true → beats b c ≡ true → beats a c ≡ true

All-both {ℓ κ μ} :
    {A : Type ℓ} (P : A → Type κ) (Q : A → Type μ) (xs : List A)
    → All P xs
    → All Q xs
    → All (λ x. P x × Q x) xs
All-both P Q [] a b = tt
All-both P Q (x ∷ xs) a b = ((a.0, b.0), All-both P Q xs a.1 b.1)

module _ {D : Type 0} where
  -- The deque that a list of entries leaves: an entry goes when a later one beats it.
  abbrev pub lasting : (D → D → Bool) → List (Timestamp × D) → List (Timestamp × D)
  lasting beats [] = []
  lasting beats (e ∷ es) =
      if any (λ later. beats later.1 e.1) es then lasting beats es else e ∷ lasting beats es

  any-append :
      (p : Timestamp × D → Bool) (es : List (Timestamp × D)) (e : Timestamp × D)
      → any p (es ++ e ∷ []) ≡ any p es || p e
  any-append p [] e = ground arith
  any-append p (a ∷ es) e = ground (arith, any-append p es e)

  none_any :
      (p : Timestamp × D → Bool) (es : List (Timestamp × D))
      → any p es ≡ false
      → All (λ e. p e ≡ false) es
  none_any p [] h = tt
  none_any p (e ∷ es) h = (ground arith, none_any p es (ground arith))

  lasting-All {κ} :
      (P : Timestamp × D → Type κ) (beats : D → D → Bool) (es : List (Timestamp × D))
      → All P es
      → All P (lasting beats es)
  lasting-All P beats [] a = tt
  lasting-All P beats (e ∷ es) a = elim (Bool-cases (any (λ later. beats later.1 e.1) es)) [
    | inl h ↦ rw h (lasting-All P beats es a.1)
    | inr h ↦ rw h (a.0, lasting-All P beats es a.1)
  ]

  pop-every :
      (test : D → Bool) (es : List (Timestamp × D))
      → All (λ e. test e.1 ≡ true) es
      → pop_back_while test es ≡ []
  unfolding pop_back_while put_back
  pop-every test [] a = refl
  pop-every test (e ∷ es) a = ap (put_back test e) (pop-every test es a.1) ∙ rw a.0 refl

  keep_front :
      (test : D → Bool) (e : Timestamp × D) (es : List (Timestamp × D))
      → test e.1 ≡ false
      → put_back test e es ≡ e ∷ es
  unfolding put_back
  keep_front test e [] h = rw h refl
  keep_front test e (a ∷ es) h = refl

  lose_front :
      (test : D → Bool) (e : Timestamp × D) (es : List (Timestamp × D))
      → es ≡ []
      → test e.1 ≡ true
      → put_back test e es ≡ []
  unfolding put_back
  lose_front test e [] h k = rw k refl
  lose_front test e (a ∷ es) h k = absurd (cc h)

  pop_front_none :
      (t : Timestamp) (es : List (Timestamp × D))
      → All (λ later. t <ℤ later.0) es
      → pop_front_at t es ≡ es
  unfolding pop_front_at
  pop_front_none t [] a = refl
  pop_front_none t (e ∷ es) a = ground (arith, a.0)

  pop_front_own : (e : Timestamp × D) (es : List (Timestamp × D)) → pop_front_at e.0 (e ∷ es) ≡ es
  unfolding pop_front_at
  pop_front_own (t, v) es = ground arith

  beats_self :
      (finite : D → Bool) (beats : D → D → Bool) (a : D)
      → IsRanking finite beats
      → finite a ≡ true
      → beats a a ≡ true
  beats_self finite beats a r g = elim (Bool-cases (beats a a)) [
    | inl e ↦ e
    | inr e ↦ r.total a a g g e
  ]

  any_beats :
      (finite : D → Bool) (beats : D → D → Bool) (a e : Timestamp × D) (es : List (Timestamp × D))
      → IsRanking finite beats
      → any (λ later. beats later.1 a.1) es ≡ true
      → All (λ other. beats e.1 other.1 ≡ true) es
      → beats e.1 a.1 ≡ true
  any_beats finite beats a e [] r h all = absurd (cc h)
  any_beats finite beats a e (b ∷ es) r h all = elim (Bool-cases (beats b.1 a.1)) [
    | inl k ↦ r.chained e.1 b.1 a.1 all.0 k
    | inr k ↦ any_beats finite beats a e es r (ground (arith, k, h)) all.1
  ]

  -- Pushing a value behind the deque, as the two loops do.
  pub push-lasting :
      (finite : D → Bool) (beats : D → D → Bool) (es : List (Timestamp × D)) (t : Timestamp) (v : D)
      → IsRanking finite beats
      → All (λ e. finite e.1 ≡ true) es
      → pop_back_while (beats v) (lasting beats es) ++ (t, v) ∷ []
        ≡ lasting beats (es ++ (t, v) ∷ [])
  unfolding pop_back_while
  push-lasting finite beats [] t v r g = refl
  push-lasting finite beats (e ∷ es) t v r g =
      let ih = push-lasting finite beats es t v r g.1 in
      let p = λ (later : Timestamp × D). beats later.1 e.1 in
      let law = any-append p es (t, v) in
      elim (Bool-cases (any p es)) [
        | inl h ↦ rw (law, h) ih
        | inr h ↦ elim (Bool-cases (beats v e.1)) [
          | inl k ↦
              let losing =
                All-map (λ a b. r.chained v e.1 a.1 k (r.total a.1 e.1 b.1 g.0 b.0)) es
                  (All-both _ _ es (none_any p es h) g.1) in
              let gone = pop-every (beats v) (lasting beats es) (lasting-All _ beats es losing) in
              let popped =
                lose_front (beats v) e (pop_back_while (beats v) (lasting beats es)) gone k in
              rw (law, h)
                (ap (λ l. l ++ (t, v) ∷ []) (popped ∙ sym gone)
                  ∙ ih
                  ∙ ap
                      (λ b.
                        if b
                        then lasting beats (es ++ (t, v) ∷ [])
                        else e ∷ lasting beats (es ++ (t, v) ∷ []))
                      (sym k))
          | inr k ↦
              rw (law, h, k)
                (ap (λ l. l ++ (t, v) ∷ []) (keep_front (beats v) e _ k) ∙ ap (λ l. e ∷ l) ih)
        ]
      ]

  -- Removing the oldest entry, where no other has its time.
  pub pop_front-lasting :
      (beats : D → D → Bool) (e : Timestamp × D) (es : List (Timestamp × D))
      → All (λ later. e.0 <ℤ later.0) es
      → pop_front_at e.0 (lasting beats (e ∷ es)) ≡ lasting beats es
  unfolding pop_front_at
  pop_front-lasting beats e es a = elim (Bool-cases (any (λ later. beats later.1 e.1) es)) [
    | inl h ↦ rw h (pop_front_none e.0 (lasting beats es) (lasting-All _ beats es a))
    | inr h ↦ rw h (pop_front_own e (lasting beats es))
  ]

  -- The front is not beaten by any entry.
  pub front-lasting :
      (finite : D → Bool) (beats : D → D → Bool) (es : List (Timestamp × D)) (e : Timestamp × D)
      (rest : List (Timestamp × D))
      → IsRanking finite beats
      → All (λ e. finite e.1 ≡ true) es
      → lasting beats es ≡ e ∷ rest
      → All (λ other. beats e.1 other.1 ≡ true) es
  front-lasting finite beats [] e rest r g h = tt
  front-lasting finite beats (a ∷ es) e rest r g h =
      elim (Bool-cases (any (λ later. beats later.1 a.1) es)) [
        | inl k ↦
            let all = front-lasting finite beats es e rest r g.1 (rw k at h) in
            (any_beats finite beats a e es r k all, all)
        | inr k ↦
            let same : a ≡ e = cc (rw k at h) in
            subst (λ x. All (λ other. beats x.1 other.1 ≡ true) (a ∷ es)) same
              (
                beats_self finite beats a.1 r g.0,
                All-map (λ other b. r.total other.1 a.1 b.1 g.0 b.0) es
                    (All-both _ _ es (none_any _ es k) g.1),
              )
      ]

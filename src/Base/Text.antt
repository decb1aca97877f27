-- ===== src/Base/Text.antt =====
-- Texts: `std::string` values, compared whole, joined, and tested for a prefix.
use Prim.Native.Char.{Char}
use Prim.Native.String.append
use mathlib.Core.Path.{◌≡◌, refl, ap, sym, ◌∙◌}
use mathlib.Core.Bool.{Bool, true, false}
use text.Mathlib.TextLemmas.{append_assoc}
use mathlib.Core.Logic.{◌≢◌}
pub use Prim.Native.String.{String, len, ◌++◌ as ◌<>◌}
pub use text.Mathlib.Text.{◌==◌ as str_eq, starts_with}
pub use text.Mathlib.TextEquality.{eq_iff, starts_with_iff}
pub use text.Mathlib.TextPositions.{eq_refl, starts_with-append}
pub use text.Mathlib.TextBridge.{IsPrefix}

-- `text.empty()`
abbrev pub is_empty : String → Bool
is_empty String.[] = true
is_empty (String.◌∷◌ c s) = false

-- No character of the text is `d`.
abbrev pub Avoids : Char → String → Type 0
Avoids d String.[] = Unit
Avoids d (String.◌∷◌ c s) = (c ≢ d) × Avoids d s

-- A text is cut at its first separator in one way only.
pub split_unique :
    (d : Char) (p q s t : String)
    → Avoids d p
    → Avoids d q
    → p <> String.◌∷◌ d s ≡ q <> String.◌∷◌ d t
    → (p ≡ q) × (s ≡ t)
split_unique d String.[] String.[] s t hp hq e =
    let e' = sym (append.nil (String.◌∷◌ d s)) ∙ e ∙ append.nil (String.◌∷◌ d t) in (refl, cc e')
split_unique d String.[] (String.◌∷◌ c q) s t hp hq e =
    let e' = sym (append.nil (String.◌∷◌ d s)) ∙ e ∙ append.cons c q (String.◌∷◌ d t) in
    absurd (hq.0 (cc e'))
split_unique d (String.◌∷◌ c p) String.[] s t hp hq e =
    let e' = sym (append.cons c p (String.◌∷◌ d s)) ∙ e ∙ append.nil (String.◌∷◌ d t) in
    absurd (hp.0 (cc e'))
split_unique d (String.◌∷◌ b p) (String.◌∷◌ c q) s t hp hq e =
    let e' = sym (append.cons b p (String.◌∷◌ d s)) ∙ e ∙ append.cons c q (String.◌∷◌ d t) in
    let tails : p <> String.◌∷◌ d s ≡ q <> String.◌∷◌ d t = cc e' in
    let rest = split_unique d p q s t hp.1 hq.1 tails in (cc (e', rest.0), rest.1)

-- `a + c + b` with one separating character.
pub join_sep : (d : Char) (p s : String) → (p <> String.◌∷◌ d String.[]) <> s ≡ p <> String.◌∷◌ d s
join_sep d p s =
    append_assoc p (String.◌∷◌ d String.[]) s
    ∙ ap (λ r. p <> r) (append.cons d String.[] s ∙ ap (String.◌∷◌ d) (append.nil s))

-- Joined keys agree in both parts.
pub joined_unique :
    (d : Char) (p q s t : String)
    → Avoids d p
    → Avoids d q
    → (p <> String.◌∷◌ d String.[]) <> s ≡ (q <> String.◌∷◌ d String.[]) <> t
    → (p ≡ q) × (s ≡ t)
joined_unique d p q s t hp hq e =
    split_unique d p q s t hp hq (sym (join_sep d p s) ∙ e ∙ join_sep d q t)

-- A joined key has the prefix of another first part only if the two first parts are equal.
pub joined_prefix :
    (d : Char) (p q s : String)
    → Avoids d p
    → Avoids d q
    → starts_with ((q <> String.◌∷◌ d String.[]) <> s) (p <> String.◌∷◌ d String.[]) ≡ true
    → p ≡ q
joined_prefix d p q s hp hq e =
    let (u, cut) = (starts_with_iff _ _).0 e in (joined_unique d p q u s hp hq cut).0

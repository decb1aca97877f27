-- ===== src/Window/ReadAll.antt =====
-- The loop over the sequences of a range query in src/window_service.cpp.
use time_series_engine.Base.{
  ℕ, ◌+◌, ◌≡◌, refl, ◌∙◌, sym, ap, subst, Bool, true, false, List, [], ◌∷◌, ◌++◌, str_eq, eq_iff,
  if◌then◌else◌, value_or, length, is_nil, Bool-cases, inl, inr,
}
use mathlib.Core.List.{append-nil, append_assoc}
use time_series_engine.Base.Assoc.{Table, lookup, lookup-insert, lookup-erase}
use time_series_engine.Types.{Timestamp, SequenceId, RawTimeseriesPoint}
use time_series_engine.Window.{SequenceWindow}
use time_series_engine.Window.Query.{read_sequence}
use time_series_engine.Window.Answer.{WindowQuery, add_answer, read_all}
use time_series_engine.Window.Update.{is_nil-nil}

module _ {D L : Type 0} where
  -- What the asked windows of a sequence read, one after the other.
  abbrev pub answers :
      WindowQuery
      → Timestamp
      → Timestamp
      → SequenceId
      → List (SequenceId × SequenceWindow D L)
      → List (RawTimeseriesPoint D)
  answers query start end id [] = []
  answers query start end id ((id0, w) ∷ sequences) =
      if str_eq id0 id
      then read_sequence query.preceding_points query.following_points start end w
        ++ answers query start end id sequences
      else answers query start end id sequences

module _ {D : Type 0} where
  pub lookup-add_answer :
      (id0 id : SequenceId) (points : List (RawTimeseriesPoint D))
      (values : Table (List (RawTimeseriesPoint D)))
      → value_or (lookup id (add_answer id0 points values)) [] ≡ (
          if str_eq id0 id
          then value_or (lookup id values) [] ++ points
          else value_or (lookup id values) [])
  unfolding add_answer
  lookup-add_answer id0 id points values =
      let output = value_or (lookup id0 values) [] ++ points in
      elim (Bool-cases (is_nil output)) [
        | inl e ↦
            let nothing = is_nil-nil output e in
            rw (e, lookup-erase id0 id values)
              (elim (Bool-cases (str_eq id0 id)) [
                | inl k ↦
                    let same = (eq_iff id0 id).0 k in
                    rw k
                      (sym (subst (λ i. value_or (lookup i values) [] ++ points ≡ []) same nothing))
                | inr k ↦ rw k refl
              ])
        | inr e ↦
            rw (e, lookup-insert id0 id output values)
              (elim (Bool-cases (str_eq id0 id)) [
                | inl k ↦
                    rw k (ap (λ i. value_or (lookup i values) [] ++ points) ((eq_iff id0 id).0 k))
                | inr k ↦ rw k refl
              ])
      ]

pub more {ℓ} :
    {A : Type ℓ} (b : Bool) (now front points back : List A)
    → now ≡ (if b then front ++ points else front)
    → now ++ back ≡ front ++ (if b then points ++ back else back)
more true now front points back e = ap (λ l. l ++ back) e ∙ append_assoc front points back
more false now front points back e = ap (λ l. l ++ back) e

module _ {D L : Type 0} where
  pub lookup-read_all :
      (query : WindowQuery) (start end : Timestamp) (id : SequenceId)
      (sequences : List (SequenceId × SequenceWindow D L))
      (answer : Table (List (RawTimeseriesPoint D)) × ℕ)
      → value_or (lookup id (read_all query start end sequences answer).0) []
        ≡ value_or (lookup id answer.0) [] ++ answers query start end id sequences
  unfolding read_all
  lookup-read_all query start end id [] answer = sym (append-nil (value_or (lookup id answer.0) []))
  lookup-read_all query start end id ((id0, w) ∷ sequences) answer =
      let points = read_sequence query.preceding_points query.following_points start end w in
      lookup-read_all query start end id sequences
        (add_answer id0 points answer.0, answer.1 + length points)
      ∙ more (str_eq id0 id) _ (value_or (lookup id answer.0) []) points
          (answers query start end id sequences) (lookup-add_answer id0 id points answer.0)

-- ===== src/Window/Served.antt =====
-- A batch of src/window_service.cpp on the windows of its project, window by window.
use time_series_engine.Base.{
  ◌≡◌, refl, ◌∙◌, sym, ap, subst, Bool, true, false, Option, none, some, List, [], ◌∷◌, ◌++◌,
  String, ◌<>◌, str_eq, eq_iff, starts_with, if◌then◌else◌, value_or, arith, Bool-cases,
  Option-cases, inl, inr, is_empty,
}
use mathlib.Core.List.{append-nil, append_assoc}
use text.Mathlib.TextLemmas.{append_cancel_left}
use time_series_engine.Base.Assoc.{Table, lookup, insert, lookup-insert}
use time_series_engine.Floating.{Floating, Extended}
use time_series_engine.Types.{Timestamp, ProjectId, SequenceId, RawTimeseriesPoint}
use time_series_engine.Validation.{validate_project_point}
use time_series_engine.Window.{SequenceWindow}
use time_series_engine.Window.Points.{is_strictly_increasing}
use time_series_engine.Window.Sequence.{prepare, update_sequence, prune_one}
use time_series_engine.Window.Service.{
  WindowService, effective_project, scoped_sequence_key, sequence_prefix, window_at, prune_windows,
}
use time_series_engine.Window.Batch.{WindowUpdateResult, gather, gather_point, update_sequences}

module _ {D : Type 0} where
  -- The points of a sequence, in the order of the batch.
  abbrev pub of_sequence : SequenceId → List (RawTimeseriesPoint D) → List (RawTimeseriesPoint D)
  of_sequence id [] = []
  of_sequence id (p ∷ ps) =
      if str_eq p.sequence_id id then p ∷ of_sequence id ps else of_sequence id ps

-- No key stands twice.
abbrev pub Distinct {ℓ} : {V : Type ℓ} → Table V → Type ℓ
Distinct [] = Unit
Distinct ((k, v) ∷ m) = (lookup k m ≡ none) × Distinct m

insert-Distinct {ℓ} :
    {V : Type ℓ} (key : String) (value : V) (m : Table V)
    → Distinct m
    → Distinct (insert key value m)
unfolding insert lookup
insert-Distinct key value [] d = (refl, tt)
insert-Distinct key value ((k, v) ∷ m) d = elim (Bool-cases (str_eq k key)) [
  | inl e ↦ rw e (ground (arith, d.0, eq_iff k key), d.1)
  | inr e ↦
      let other : str_eq key k ≡ false = ground (arith, eq_iff k key, eq_iff key k) in
      rw e (rw (lookup-insert key k value m, other) d.0, insert-Distinct key value m d.1)
]

one_more {ℓ} :
    {A : Type ℓ} (b : Bool) (a : A) (front back now : List A)
    → now ≡ (if b then front ++ a ∷ [] else front)
    → now ++ back ≡ front ++ (if b then a ∷ back else back)
one_more true a front back now e = ap (λ l. l ++ back) e ∙ append_assoc front (a ∷ []) back
one_more false a front back now e = ap (λ l. l ++ back) e

module _ {D : Type 0} where
  gather-step :
      (id : SequenceId) (p : RawTimeseriesPoint D)
      (g : WindowUpdateResult × Table (List (RawTimeseriesPoint D)))
      → value_or (lookup id (gather_point p g).1) [] ≡ (
          if str_eq p.sequence_id id
          then value_or (lookup id g.1) [] ++ p ∷ []
          else value_or (lookup id g.1) [])
  unfolding gather_point
  gather-step id p (result, incoming) =
      let law =
        lookup-insert p.sequence_id id (value_or (lookup p.sequence_id incoming) [] ++ p ∷ [])
          incoming in
      ground (arith, law, eq_iff p.sequence_id id)

  gather_point-Distinct :
      (p : RawTimeseriesPoint D) (g : WindowUpdateResult × Table (List (RawTimeseriesPoint D)))
      → Distinct g.1
      → Distinct (gather_point p g).1
  unfolding gather_point
  gather_point-Distinct p (result, incoming) d = insert-Distinct p.sequence_id _ incoming d

module _ {D : Type 0} ⦃f : Floating D⦄ where
  -- What the loop over the points has gathered for a sequence.
  pub gather-of_sequence :
      (project : ProjectId) (id : SequenceId) (ps : List (RawTimeseriesPoint D))
      (g g' : WindowUpdateResult × Table (List (RawTimeseriesPoint D)))
      → Distinct g.1
      → gather project ps g ≡ (none, g')
      → Distinct g'.1
        × (value_or (lookup id g'.1) [] ≡ value_or (lookup id g.1) [] ++ of_sequence id ps)
  unfolding gather
  gather-of_sequence project id [] g g' d h =
      let same : g ≡ g' = cc h in
      (
        subst (λ x. Distinct x.1) same d,
        ap (λ x. value_or (lookup id x.1) []) (sym same)
            ∙ sym (append-nil (value_or (lookup id g.1) [])),
      )
  gather-of_sequence project id (p ∷ ps) g g' d h =
      elim (Option-cases (validate_project_point project p)) [
        | inl e ↦
            let rest =
              gather-of_sequence project id ps (gather_point p g) g' (gather_point-Distinct p g d)
                (rw (e, gather) at h) in
            (
              rest.0,
              rest.1
                  ∙ one_more (str_eq p.sequence_id id) p _ (of_sequence id ps) _
                      (gather-step id p g),
            )
        | inr (m, e) ↦ absurd (cc (rw (e, gather) at h))
      ]

-- `effective_project` has done its work after one call.
pub effective_twice :
    (p : ProjectId) → effective_project (effective_project p) ≡ effective_project p
unfolding effective_project
effective_twice p = elim (Bool-cases (is_empty p)) [ inl e ↦ rw e refl | inr e ↦ rw (e, e) refl ]

str_eq-scoped_sequence_key :
    (p a b : String) → str_eq (scoped_sequence_key p a) (scoped_sequence_key p b) ≡ str_eq a b
unfolding scoped_sequence_key
str_eq-scoped_sequence_key p a b =
    let prefix = sequence_prefix (effective_project p) in
    elim (Bool-cases (str_eq a b)) [
      | inl e ↦ rw e ((eq_iff _ _).1 (ap (λ s. prefix <> s) ((eq_iff a b).0 e)))
      | inr e ↦ elim (Bool-cases (str_eq (prefix <> a) (prefix <> b))) [
        | inl k ↦ absurd (cc (e, (eq_iff a b).1 (append_cancel_left prefix a b ((eq_iff _ _).0 k))))
        | inr k ↦ k ∙ sym e
      ]
    ]

module _ {D L : Type 0} ⦃f : Floating D⦄ ⦃x : Extended D L⦄ where
  -- What a sequence's incoming points do to its window.
  abbrev pub updated :
      Option (List (RawTimeseriesPoint D)) → SequenceWindow D L → SequenceWindow D L
  updated none w = w
  updated (some incoming) w =
      (update_sequence (is_strictly_increasing incoming) (prepare incoming) w).0

  window_at-insert :
      (project : ProjectId) (a b : SequenceId) (w : SequenceWindow D L) (svc : WindowService D L)
      → window_at
          (record svc {
            sequence_windows = insert (scoped_sequence_key project a) w svc.sequence_windows;
          })
          (scoped_sequence_key project b)
        ≡ (if str_eq a b then w else window_at svc (scoped_sequence_key project b))
  unfolding window_at
  window_at-insert project a b w svc =
      let law =
        lookup-insert (scoped_sequence_key project a) (scoped_sequence_key project b) w
          svc.sequence_windows in
      rw (law, str_eq-scoped_sequence_key project a b) (ground arith)

  pub window_at-update_sequences :
      (project : ProjectId) (id : SequenceId) (incoming : Table (List (RawTimeseriesPoint D)))
      (state : WindowService D L × WindowUpdateResult)
      → Distinct incoming
      → window_at (update_sequences project incoming state).0 (scoped_sequence_key project id)
        ≡ updated (lookup id incoming) (window_at state.0 (scoped_sequence_key project id))
  unfolding update_sequences lookup
  window_at-update_sequences project id [] state d = refl
  window_at-update_sequences project id ((id0, points) ∷ others) (svc, result) d =
      let key0 = scoped_sequence_key project id0 in
      let w = updated (some points) (window_at svc key0) in
      window_at-update_sequences project id others _ d.1
      ∙ ap (updated (lookup id others)) (window_at-insert project id0 id w svc)
      ∙ elim (Bool-cases (str_eq id0 id)) [
        | inl e ↦
            let same = (eq_iff id0 id).0 e in
            let gone : lookup id others ≡ none = subst (λ k. lookup k others ≡ none) same d.0 in
            rw (e, gone)
              (ap (λ k. updated (some points) (window_at svc (scoped_sequence_key project k))) same)
        | inr e ↦ rw e refl
      ]

  abbrev pub after_prune : Timestamp → Option (SequenceWindow D L) → Option (SequenceWindow D L)
  after_prune start none = none
  after_prune start (some w) = some (prune_one start w).0

  pub lookup-prune_windows :
      (prefix key : String) (start : Timestamp) (windows : Table (SequenceWindow D L))
      → lookup key (prune_windows prefix start windows).0 ≡ (
          if starts_with key prefix
          then after_prune start (lookup key windows)
          else lookup key windows)
  unfolding prune_windows lookup
  lookup-prune_windows prefix key start [] = elim (Bool-cases (starts_with key prefix)) [
    | inl e ↦ rw e refl
    | inr e ↦ rw e refl
  ]
  lookup-prune_windows prefix key start ((k, w) ∷ windows) =
      let ih = lookup-prune_windows prefix key start windows in
      elim (Bool-cases (str_eq k key)) [
        | inl e ↦
            let same = (eq_iff k key).0 e in
            elim (Bool-cases (starts_with key prefix)) [
              | inl h ↦ rw (ap (λ s. starts_with s prefix) same ∙ h, h, e) refl
              | inr h ↦ rw (ap (λ s. starts_with s prefix) same ∙ h, h, e) refl
            ]
        | inr e ↦ elim (Bool-cases (starts_with k prefix)) [
          | inl h ↦ rw (h, e) ih
          | inr h ↦ rw (h, e) ih
        ]
      ]

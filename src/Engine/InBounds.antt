-- ===== src/Engine/InBounds.antt =====
-- The loops of src/constraint_check_engine.cpp stay inside their containers.
use time_series_engine.Base.{
  ℕ, zero, suc, ◌+◌, ◌-◌, ◌<◌, ◌≤◌, ◌≡◌, sym, ap, ◌∙◌, ◌⊎◌, inr, Bool, true, false, not, Option,
  List, [], ◌∷◌, String, str_eq, is_some, ◌==◌, get_elem?, length, All, arith,
}
use time_series_engine.Base.Assoc.{Table, lookup}
use time_series_engine.Base.Checked.{All-map}
use time_series_engine.Floating.{Floating}
use time_series_engine.Types.{
  Timestamp, SequenceId, RawTimeseriesPoint, AlignedSample, ConstraintTerm, ConstraintRule,
  ConstraintAggregation, ConstraintCheckResult,
}
use time_series_engine.Rules.{ConstraintRuleProperties}
use time_series_engine.Rules.Accepted.{RuleOk, TermIsMapped}
use time_series_engine.Window.Summary.{WindowStatisticsData, SequenceWindowStatistics}
use time_series_engine.Engine.{
  Step, done, failed, fault, access, Resolver, numeric_value, mapped_sequences_of,
  mapped_sequences_for_rule, resolve_terms, evaluate_rule_at, ConstraintCheckRange,
}
use time_series_engine.Engine.Aggregate.{
  figure_of, resolve_aggregate, all_measured, evaluate_aggregate_rule,
}
use time_series_engine.Engine.Anchors.{
  after_anchor, anchor_loop, is_past, point_time, sample_time_at, first_point, first_sample,
  resolve_point, resolve_sample, check_points, check_samples, is_missing_mapped_sequence_error,
}
use time_series_engine.Engine.Ends.{
  Ends, Ends->>=, Ends-if, Ends-elim, >>=-eq-done, Ends-access, is_some-get_elem?, fits_or_none,
}

module _ {D : Type 0} ⦃f : Floating D⦄ where
  pub Ends-mapped_sequences_of :
      (E : Type 0) (mapping : Table SequenceId) (terms : List (ConstraintTerm D))
      → All (TermIsMapped mapping) terms
      → Ends (mapped_sequences_of {E = E} mapping terms)
  unfolding mapped_sequences_of
  Ends-mapped_sequences_of E mapping [] all = tt
  Ends-mapped_sequences_of E mapping (t ∷ terms) all =
      Ends->>= (access (lookup t.variable mapping)) _ (Ends-access E _ all.0.0) λ id e.
        Ends->>= (mapped_sequences_of mapping terms) _
          (Ends-mapped_sequences_of E mapping terms all.1) λ ids e'. tt

  pub mapped_sequences_of-length :
      {E : Type 0} (mapping : Table SequenceId) (terms : List (ConstraintTerm D))
      (ids : List SequenceId)
      → mapped_sequences_of {E = E} mapping terms ≡ done ids
      → length ids ≡ length terms
  unfolding mapped_sequences_of
  mapped_sequences_of-length {E} mapping [] ids e = let same : [] ≡ ids = cc in ap length (sym same)
  mapped_sequences_of-length {E} mapping (t ∷ terms) ids e =
      let (id, _, rest) = >>=-eq-done (access (lookup t.variable mapping)) _ e in
      let (later, found, last) = >>=-eq-done (mapped_sequences_of {E = E} mapping terms) _ rest in
      let same : id ∷ later ≡ ids = cc in
      ap length (sym same) ∙ ap suc (mapped_sequences_of-length mapping terms later found)

  pub Ends-resolve_terms :
      (resolve : Resolver D) (anchor : ℕ) (terms : List (ConstraintTerm D)) (ids : List SequenceId)
      (sum : D)
      → length ids ≡ length terms
      → All (λ t. (id : SequenceId) → Ends (resolve t id anchor)) terms
      → Ends (resolve_terms resolve anchor terms ids sum)
  unfolding resolve_terms
  Ends-resolve_terms resolve anchor [] ids sum same all = tt
  Ends-resolve_terms resolve anchor (t ∷ terms) [] sum same all = absurd (omega arith)
  Ends-resolve_terms resolve anchor (t ∷ terms) (id ∷ ids) sum same all =
      Ends->>= (resolve t id anchor) _ (all.0 id) λ r e.
        Ends->>= (resolve_terms resolve anchor terms ids _) _
          (Ends-resolve_terms resolve anchor terms ids _ (omega arith) all.1) λ rest e'. tt

  pub Ends-evaluate_rule_at :
      (rule : ConstraintRule D) (ids : List SequenceId) (time : Timestamp) (anchor : ℕ)
      (resolve : Resolver D) (r : ConstraintCheckResult D)
      → length ids ≡ length rule.terms
      → All (λ t. (id : SequenceId) → Ends (resolve t id anchor)) rule.terms
      → Ends (evaluate_rule_at rule ids time anchor resolve r)
  unfolding evaluate_rule_at
  Ends-evaluate_rule_at rule ids time anchor resolve r same all =
      Ends->>= (resolve_terms resolve anchor rule.terms ids f.zero) _
        (Ends-resolve_terms resolve anchor rule.terms ids f.zero same all) λ e h. tt

  pub Ends-resolve_point :
      (points : List (RawTimeseriesPoint D)) (t : ConstraintTerm D) (id : SequenceId) (anchor : ℕ)
      → anchor + t.sample_offset < length points
      → Ends (resolve_point points t id anchor)
  unfolding resolve_point
  Ends-resolve_point points t id anchor lt =
      Ends->>= (access (get_elem? points (anchor + t.sample_offset))) _
        (Ends-access String _ (is_some-get_elem? points _ lt))
        λ p e.
          Ends-if (not (str_eq id p.sequence_id)) _ _ tt
            (Ends-elim (numeric_value p.value) _ _ tt (λ value. tt))

  pub Ends-resolve_sample :
      (samples : List (AlignedSample D)) (t : ConstraintTerm D) (id : SequenceId) (anchor : ℕ)
      → anchor + t.sample_offset < length samples
      → Ends (resolve_sample samples t id anchor)
  unfolding resolve_sample
  Ends-resolve_sample samples t id anchor lt =
      Ends->>= (access (get_elem? samples (anchor + t.sample_offset))) _
        (Ends-access String _ (is_some-get_elem? samples _ lt))
        λ s e.
          Ends-elim (lookup id s.values) _ _ tt
            (λ stored. Ends-elim (numeric_value stored) _ _ tt (λ value. tt))

  pub Ends-after_anchor :
      (retried : String → Bool) (before : ConstraintCheckResult D)
      (m : Step String (ConstraintCheckResult D))
      → Ends m
      → Ends (after_anchor retried before m)
  unfolding after_anchor
  Ends-after_anchor retried before (done r) h = tt
  Ends-after_anchor retried before (failed e) h = Ends-if (retried e) _ _ tt tt
  Ends-after_anchor retried before fault h = h

  pub Ends-anchor_loop :
      (time_at : ℕ → Option Timestamp) (range : Option ConstraintCheckRange)
      (retried : String → Bool)
      (evaluate : Timestamp → ℕ → ConstraintCheckResult D → Step String (ConstraintCheckResult D))
      (size rounds anchor : ℕ) (r : ConstraintCheckResult D)
      → ((a : ℕ) → a < size → is_some (time_at a) ≡ true)
      → ((t : Timestamp) (a : ℕ) (r : ConstraintCheckResult D) → a < size → Ends (evaluate t a r))
      → (rounds ≡ 0) ⊎ (anchor + rounds ≤ size)
      → Ends (anchor_loop time_at range retried evaluate rounds anchor r)
  unfolding anchor_loop
  Ends-anchor_loop time_at range retried evaluate size zero anchor r timed ends fits = tt
  Ends-anchor_loop time_at range retried evaluate size (suc rounds) anchor r timed ends fits =
      Ends->>= (access (time_at anchor)) _ (Ends-access String _ (timed anchor (omega arith)))
        λ time e. Ends-if (is_past time range) _ _ tt (
          Ends->>= (after_anchor retried r (evaluate time anchor r)) _
            (Ends-after_anchor retried r _ (ends time anchor r (omega arith)))
            λ next e'.
              Ends-anchor_loop time_at range retried evaluate size rounds (suc anchor) next timed
                ends (inr (ground arith)))

  pub offsets_fit :
      (m size anchor : ℕ) (terms : List (ConstraintTerm D))
      → anchor + m < size
      → All (λ t. t.sample_offset ≤ m) terms
      → All (λ t. anchor + t.sample_offset < size) terms
  offsets_fit m size anchor terms fits all = All-map (λ t le. omega arith) terms all

  pub is_some-point_time :
      (points : List (RawTimeseriesPoint D)) (a : ℕ)
      → a < length points
      → is_some (point_time points a) ≡ true
  unfolding point_time
  is_some-point_time points a lt = ground (arith, is_some-get_elem? points a lt)

  pub is_some-sample_time_at :
      (samples : List (AlignedSample D)) (a : ℕ)
      → a < length samples
      → is_some (sample_time_at samples a) ≡ true
  unfolding sample_time_at
  is_some-sample_time_at samples a lt = ground (arith, is_some-get_elem? samples a lt)

  pub Ends-check_points :
      (rule : ConstraintRule D) (ids : List SequenceId) (points : List (RawTimeseriesPoint D))
      (m : ℕ) (range : Option ConstraintCheckRange) (r : ConstraintCheckResult D)
      → length ids ≡ length rule.terms
      → All (λ t. t.sample_offset ≤ m) rule.terms
      → Ends (check_points rule ids points m range r)
  unfolding check_points point_time
  Ends-check_points rule ids points m range r same offsets =
      Ends-anchor_loop (point_time points) range (λ _. false)
        (λ time anchor r'. evaluate_rule_at rule ids time anchor (resolve_point points) r')
        (length points - m) (length points - m - first_point points range)
        (first_point points range) r (λ a lt. is_some-point_time points a (omega arith))
        (λ t a r' lt. Ends-evaluate_rule_at rule ids t a (resolve_point points) r' same (
          All-map (λ t fits id. Ends-resolve_point points t id a fits) rule.terms
            (offsets_fit m (length points) a rule.terms (omega arith) offsets)))
        (fits_or_none (length points - m) (first_point points range))

  pub Ends-check_samples :
      (rule : ConstraintRule D) (ids : List SequenceId) (samples : List (AlignedSample D)) (m : ℕ)
      (range : Option ConstraintCheckRange) (r : ConstraintCheckResult D)
      → length ids ≡ length rule.terms
      → All (λ t. t.sample_offset ≤ m) rule.terms
      → Ends (check_samples rule ids samples m range r)
  unfolding check_samples sample_time_at
  Ends-check_samples rule ids samples m range r same offsets =
      Ends-anchor_loop (sample_time_at samples) range is_missing_mapped_sequence_error
        (λ time anchor r'. evaluate_rule_at rule ids time anchor (resolve_sample samples) r')
        (length samples - m) (length samples - m - first_sample samples range)
        (first_sample samples range) r (λ a lt. is_some-sample_time_at samples a (omega arith))
        (λ t a r' lt. Ends-evaluate_rule_at rule ids t a (resolve_sample samples) r' same (
          All-map (λ t fits id. Ends-resolve_sample samples t id a fits) rule.terms
            (offsets_fit m (length samples) a rule.terms (omega arith) offsets)))
        (fits_or_none (length samples - m) (first_sample samples range))

  pub Ends-figure_of :
      (a : ConstraintAggregation) (s : SequenceWindowStatistics D) → Ends (figure_of a s)
  unfolding figure_of
  Ends-figure_of ConstraintAggregation.average s = tt
  Ends-figure_of ConstraintAggregation.maximum s = tt
  Ends-figure_of ConstraintAggregation.minimum s = tt
  Ends-figure_of ConstraintAggregation.sample s = tt

  pub Ends-resolve_aggregate :
      (w : WindowStatisticsData D) (t : ConstraintTerm D) (id : SequenceId) (anchor : ℕ)
      → Ends (resolve_aggregate w t id anchor)
  unfolding resolve_aggregate
  Ends-resolve_aggregate w t id anchor = Ends-elim (lookup id w.sequence_statistics) _ _ tt λ s.
      Ends-if (s.count == 0) _ _ tt
        (Ends->>= (figure_of t.aggregation s) _ (Ends-figure_of t.aggregation s) λ v e. tt)

  pub Ends-evaluate_aggregate_rule :
      (rule : ConstraintRule D) (p : ConstraintRuleProperties) (w : WindowStatisticsData D)
      (r : ConstraintCheckResult D)
      → RuleOk rule p
      → Ends (evaluate_aggregate_rule rule w r)
  unfolding evaluate_aggregate_rule mapped_sequences_for_rule
  Ends-evaluate_aggregate_rule rule p w r ok =
      Ends->>= (mapped_sequences_of {E = String} rule.variable_mapping rule.terms) _
        (Ends-mapped_sequences_of String rule.variable_mapping rule.terms ok.mapped)
        λ ids e.
          Ends-if (all_measured w ids)
            (evaluate_rule_at rule ids w.window_end_time 0 (resolve_aggregate w) r)
            (done (record r { pending_count = r.pending_count + 1 }))
            (Ends-evaluate_rule_at rule ids w.window_end_time 0 (resolve_aggregate w) r
              (mapped_sequences_of-length _ _ ids e)
              (All-map (λ t _ id. Ends-resolve_aggregate w t id 0) rule.terms ok.mapped))
            tt

-- ===== src/Types/Config.antt =====
-- types.hpp: series kinds, constraint rules, relations, derived series and their snapshots.
use time_series_engine.Base.{ℕ, ℤ, Bool, String, Option, List}
use time_series_engine.Base.Assoc.{Table}
use time_series_engine.Types.Values.{ProjectId, SequenceId}

pub data SeriesKind : Type 0 where
  unspecified continuous discrete categorical : SeriesKind

pub data ConstraintAggregation : Type 0 where
  sample average maximum minimum : ConstraintAggregation

pub record ConstraintTerm (D : Type 0) : Type 0 where
  pub variable : String
  pub coefficient : D
  pub sample_offset : ℕ
  pub aggregation : ConstraintAggregation

pub record ConstraintRule (D : Type 0) : Type 0 where
  pub constraint_id : String
  pub variable_mapping : Table SequenceId
  pub lower_bound : Option D
  pub upper_bound : Option D
  pub terms : List (ConstraintTerm D)
  pub project_id : ProjectId
  pub or_group_id : String

pub record RuntimeInstanceConfig : Type 0 where
  pub sequence_id : SequenceId
  pub data_source_id : String
  pub external_sequence_id : String
  pub category_id : String
  pub data_type : String
  pub series_kind : SeriesKind
  pub project_id : ProjectId

pub record RuntimeConstraintConfig (D : Type 0) : Type 0 where
  pub rule : ConstraintRule D
  pub enabled : Bool
  pub project_id : ProjectId

-- `RelationLagSpec`, with the two fields of `RelationLagRange` in the last case.
pub data RelationLagSpec : Type 0 where
  no_lag : RelationLagSpec
  fixed_lag : ℤ → RelationLagSpec
  lag_range : ℤ → ℤ → RelationLagSpec

pub record RuntimeRelationSource (D : Type 0) : Type 0 where
  pub source_sequence_id : SequenceId
  pub weight : D
  pub lag : RelationLagSpec

pub record RuntimeRelationConfig (D : Type 0) : Type 0 where
  pub relation_id : String
  pub sources : List (RuntimeRelationSource D)
  pub target_sequence_id : SequenceId
  pub relation_type : String
  pub confidence : D
  pub enabled : Bool
  pub project_id : ProjectId

pub data DerivedOperator : Type 0 where
  unspecified add subtract multiply divide : DerivedOperator

pub data NodeKind : Type 0 where
  sequence constant binary : NodeKind

-- A node has the fields of every kind, as the struct does; a child is a pointer that may be null.
mutual
  pub data DerivedExpression (D : Type 0) : Type 0 where
    node :
        NodeKind
        → SequenceId
        → D
        → DerivedOperator
        → ExpressionPtr D
        → ExpressionPtr D
        → DerivedExpression D

  pub data ExpressionPtr (D : Type 0) : Type 0 where
    null : ExpressionPtr D
    ptr : DerivedExpression D → ExpressionPtr D

pub record DerivedLinearTerm (D : Type 0) : Type 0 where
  pub sequence_id : SequenceId
  pub coefficient : D

pub record DerivedLinearCombination (D : Type 0) : Type 0 where
  pub terms : List (DerivedLinearTerm D)
  pub bias : D

pub data DerivedFormula (D : Type 0) : Type 0 where
  linear : DerivedLinearCombination D → DerivedFormula D
  expression : DerivedExpression D → DerivedFormula D

pub record RuntimeDerivedSeriesConfig (D : Type 0) : Type 0 where
  pub derived_sequence_id : SequenceId
  pub enabled : Bool
  pub formula : DerivedFormula D
  pub project_id : ProjectId

pub record RuntimeConfigSnapshot (T : Type 0) : Type 0 where
  pub items : List T
  pub project_id : ProjectId

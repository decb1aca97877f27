-- ===== src/Registry.antt =====
-- src/runtime_config_registry.cpp: the registry's state, its keys, and what all its updates share.
pub mod Instances
pub mod Constraints
pub mod Relations
pub mod Derived
pub mod Lookups
pub mod Keys
pub mod Snapshot
pub mod Index
pub mod Agreement
pub mod Incremental
use Prim.Native.Char.{Char}
use time_series_engine.Base.{
  ℕ, Bool, true, false, List, [], ◌∷◌, String, ◌<>◌, is_empty, starts_with, if◌then◌else◌,
}
use time_series_engine.Base.Assoc.{Table, emplace}
use time_series_engine.Base.Checked.{Checked, accepted, rejected}
use time_series_engine.Operation
use time_series_engine.Operation.{invalid_argument}
use time_series_engine.Types.{
  ProjectId, SequenceId, OperationResult, SeriesKind, RuntimeInstanceConfig,
  RuntimeConstraintConfig, RuntimeRelationConfig, RuntimeDerivedSeriesConfig,
}

pub record RuntimeConfigRegistry (D : Type 0) : Type 0 where
  pub instance_configs : Table RuntimeInstanceConfig
  pub external_sequence_index : Table SequenceId
  pub constraints : Table (RuntimeConstraintConfig D)
  pub relations : Table (RuntimeRelationConfig D)
  pub derived_series : Table (RuntimeDerivedSeriesConfig D)

abbrev pub record_separator : Char
record_separator = "\u{1e}"

abbrev pub unit_separator : Char
unit_separator = "\u{1f}"

-- `project_id + '\x1e'`
abbrev pub project_prefix : ProjectId → String
project_prefix project_id = project_id <> String.◌∷◌ record_separator String.[]

unfoldable pub scoped_key : ProjectId → String → String
scoped_key project_id id = project_prefix project_id <> id

unfoldable pub external_key : ProjectId → String → String → String
external_key project_id data_source_id external_sequence_id =
    ((project_prefix project_id <> data_source_id) <> String.◌∷◌ unit_separator String.[])
    <> external_sequence_id

unfoldable pub snapshot_project : ProjectId → ProjectId
snapshot_project project_id = if is_empty project_id then "default" else project_id

-- `isBlank`
abbrev pub is_blank : String → Bool
is_blank = is_empty

unfoldable pub valid_series_kind : SeriesKind → Bool
valid_series_kind SeriesKind.unspecified = true
valid_series_kind SeriesKind.continuous = true
valid_series_kind SeriesKind.discrete = true
valid_series_kind SeriesKind.categorical = true

-- The loop that carries the entries of other projects over into a replacement table.
unfoldable pub keep_others {ℓ} : {V : Type ℓ} → String → Table V → Table V → Table V
keep_others prefix [] new = new
keep_others prefix ((k, v) ∷ old) new =
    keep_others prefix old (if starts_with k prefix then new else emplace k v new)

module _ {D : Type 0} where
  -- An update that was checked through is published; a rejected one leaves the registry as it was.
  unfoldable pub publish :
      RuntimeConfigRegistry D
      → String
      → Checked (RuntimeConfigRegistry D × ℕ)
      → RuntimeConfigRegistry D × OperationResult
  publish r message (accepted (r', count)) = (r', Operation.ok count message)
  publish r message (rejected error) = (r, invalid_argument error)

-- ===== src/Window.antt =====
-- src/window_service.cpp and include/sfkg/timeseries/core/window_service.hpp: one sequence's hot
-- window, the project's metadata, and the operations on both.
pub mod Points
pub mod Statistics
pub mod Sequence
pub mod Lookup
pub mod Placement
pub mod Merge
pub mod View
pub mod Aside
pub mod Invariant
pub mod Later
pub mod Branches
pub mod Update
pub mod Prune
pub mod Prepare
pub mod Refinement
pub mod Bounded
pub mod Query
pub mod Ranges
pub mod Between
pub mod Context
pub mod Service
pub mod Batch
pub mod Commit
pub mod Served
pub mod Accepted
pub mod Watermark
pub mod Patch
pub mod Patched
pub mod Answer
pub mod ReadAll
pub mod Answered
pub mod Lasting
pub mod Counted
pub mod Figures
pub mod Extremes
pub mod Summary
pub mod Summarized
pub mod Measured
use time_series_engine.Base.{ℕ, Bool, Option, List}
use time_series_engine.Types.{Timestamp, RawTimeseriesPoint}

-- `SequenceWindow`. `L` is `long double`; the deques begin with their front.
pub record SequenceWindow (D L : Type 0) : Type 0 where
  pub points : List (RawTimeseriesPoint D)
  pub late_points : List (Timestamp × RawTimeseriesPoint D)
  pub active_begin : ℕ
  pub latest_time : Option Timestamp
  pub statistics_valid : Bool
  pub statistics_count : ℕ
  pub statistics_non_numeric_count : ℕ
  pub statistics_sum : L
  pub statistics_minimum : List (Timestamp × D)
  pub statistics_maximum : List (Timestamp × D)

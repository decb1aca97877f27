-- ===== src/Window/Service.antt =====
-- `WindowService` of src/window_service.cpp: the index of the sequences' windows and the metadata of
-- each project, and the operations on a whole project.
use time_series_engine.Base.{
  ℕ, ℤ, pos, negsuc, ◌+ℤ◌, ◌-ℤ◌, ltb_ℤ, leb_ℤ, eqb_ℤ, true, Option, none, some, List, [], ◌∷◌,
  String, ◌<>◌, is_empty, starts_with, if◌then◌else◌, value_or,
}
use time_series_engine.Base.Assoc.{Table, lookup, insert}
use time_series_engine.Floating.{Floating, Extended}
use time_series_engine.Operation
use time_series_engine.Operation.{invalid_argument}
use time_series_engine.Types.{Timestamp, ProjectId, SequenceId, OperationResult}
use time_series_engine.Window.{SequenceWindow}
use time_series_engine.Window.Sequence.{prune_one}

-- `kDefaultWindowSizeMs`, three days.
abbrev pub default_window_size : ℤ
default_window_size = pos 259200000

-- `std::numeric_limits<Timestamp>::min()`, -2^63, and `max()`.
abbrev pub min_time : Timestamp
min_time = negsuc 9223372036854775807

abbrev pub max_time : Timestamp
max_time = pos 9223372036854775807

-- The members of `WindowService`, with a window for each key in place of a pointer to it.
pub record WindowService (D L : Type 0) : Type 0 where
  pub sequence_windows : Table (SequenceWindow D L)
  pub watermarks : Table Timestamp
  pub window_sizes : Table ℤ
  pub update_generations : Table ℕ

unfoldable pub effective_project : ProjectId → ProjectId
effective_project project_id = if is_empty project_id then "default" else project_id

abbrev pub sequence_prefix : ProjectId → String
sequence_prefix project_id = project_id <> String.◌∷◌ "\u{1e}" String.[]

unfoldable pub scoped_sequence_key : ProjectId → SequenceId → String
unfolding effective_project
scoped_sequence_key project_id sequence_id =
    sequence_prefix (effective_project project_id) <> sequence_id

-- `watermark - window_size`, or the least time where that would underflow.
unfoldable pub start_of_window : Timestamp → ℤ → Timestamp
unfolding ◌+ℤ◌ ◌-ℤ◌
start_of_window watermark window_size =
    if ltb_ℤ watermark (min_time +ℤ window_size) then min_time else watermark -ℤ window_size

-- `*watermark + 1`, or the watermark where that would overflow.
unfoldable pub live_end_of : Timestamp → Timestamp
unfolding ◌+ℤ◌
live_end_of watermark = if eqb_ℤ watermark max_time then watermark else watermark +ℤ pos 1

module _ {D L : Type 0} where
  unfoldable pub window_size : WindowService D L → ProjectId → ℤ
  unfolding lookup effective_project
  window_size svc project_id =
      value_or (lookup (effective_project project_id) svc.window_sizes) default_window_size

module _ {D L : Type 0} ⦃f : Floating D⦄ ⦃x : Extended D L⦄ where
  -- `std::make_shared<SequenceWindow>()`
  unfoldable pub new_window : SequenceWindow D L
  new_window = record {
    points = [];
    late_points = [];
    active_begin = 0;
    latest_time = none;
    statistics_valid = true;
    statistics_count = 0;
    statistics_non_numeric_count = 0;
    statistics_sum = x.zero;
    statistics_minimum = [];
    statistics_maximum = [];
  }

  -- `sequenceWindowFor`, and the window that stands there.
  unfoldable pub window_at : WindowService D L → String → SequenceWindow D L
  unfolding lookup new_window
  window_at svc key = value_or (lookup key svc.sequence_windows) new_window

  -- `pruneExpiredPoints` on the windows of a project: the index, and the keys of what was evicted.
  -- The windows are independent, so the order and the grouping of the work do not show.
  unfoldable pub prune_windows :
      String → Timestamp → Table (SequenceWindow D L) → Table (SequenceWindow D L) × List String
  unfolding prune_one
  prune_windows prefix start [] = ([], [])
  prune_windows prefix start ((key, w) ∷ windows) =
      let (rest, evicted) = prune_windows prefix start windows in
      let (w', gone) = prune_one start w in
      if starts_with key prefix
      then ((key, w') ∷ rest, if gone then key ∷ evicted else evicted)
      else ((key, w) ∷ rest, evicted)

  -- `prune` where a watermark is known.
  unfoldable pub prune_project :
      ProjectId → ℤ → Option Timestamp → WindowService D L → WindowService D L
  unfolding prune_windows start_of_window
  prune_project project_id size none svc = svc
  prune_project project_id size (some watermark) svc = record svc {
    sequence_windows =
        (prune_windows (sequence_prefix project_id) (start_of_window watermark size)
          svc.sequence_windows).0;
  }

  unfoldable pub configure_window_size :
      ProjectId → ℤ → WindowService D L → WindowService D L × OperationResult
  unfolding effective_project insert lookup prune_project
  configure_window_size project_id size svc =
      let project = effective_project project_id in
      if leb_ℤ size (pos 0) then (svc, invalid_argument "window_size must be positive") else (
        prune_project project size (lookup project svc.watermarks)
            (record svc { window_sizes = insert project size svc.window_sizes }),
        Operation.ok 0 "hot window size configured",
      )

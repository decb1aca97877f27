-- ===== src/Tests/Service.antt =====
-- The theorems on the whole window service at a service with one sequence of one project.
use time_series_engine.Base.{
  subst, ◌≡◌, ◌⊎◌, ◌≢◌, refl, false, none, some, [], ◌∷◌, ℤ, pos, ◌≤ℤ◌, ◌+ℤ◌, arith, All, ltb_ℤ,
  leb_ℤ, if◌then◌else◌, value_or,
}
use time_series_engine.Base.Assoc.{lookup}
use time_series_engine.Operation
use time_series_engine.Types.{Timestamp, OperationCode, TimeseriesBatch}
use time_series_engine.Validation.{validate_value}
use time_series_engine.Window.{SequenceWindow}
use time_series_engine.Window.Sequence.{back_time}
use time_series_engine.Window.Lookup.{first_some, find_at, Ascending}
use time_series_engine.Window.View.{view, IsOrdered}
use time_series_engine.Window.Invariant.{IsWindow}
use time_series_engine.Window.Query.{read_range, following, interleave}
use time_series_engine.Window.Ranges.{read_range-view}
use time_series_engine.Window.Context.{following-take}
use time_series_engine.Window.Service.{
  WindowService, effective_project, scoped_sequence_key, window_at, window_size, start_of_window,
  min_time, max_time,
}
use time_series_engine.Window.Commit.{update_window_incremental, update_metadata, current_start}
use time_series_engine.Window.Accepted.{
  update_window_incremental-outcome, update_window_incremental-view,
}
use time_series_engine.Window.Watermark.{
  watermark-raised, watermark-first_batch, start_of_window-bounds,
}
use time_series_engine.Window.Patch.{patch_sequence}
use time_series_engine.Window.Patched.{patch_sequence-view}
use time_series_engine.Window.Answer.{WindowQuery, is_reversed, query_window_data}
use time_series_engine.Window.Answered.{
  window_of, each_time, reads_of, view_of, query_window_data-answers,
}
use time_series_engine.Window.Between.{is_between, within}
use time_series_engine.Tests.Data.{whole, whole_sums, point_at, hot}
use time_series_engine.Tests.Window.{hot-IsWindow}

abbrev service : WindowService ℤ ℤ
service = record {
  sequence_windows = (scoped_sequence_key "a" "s1", hot) ∷ [];
  watermarks = ("a", pos 3) ∷ [];
  window_sizes = ("a", pos 10) ∷ [];
  update_generations = [];
}

abbrev fresh : WindowService ℤ ℤ
fresh = record {
  sequence_windows = [];
  watermarks = [];
  window_sizes = [];
  update_generations = [];
}

abbrev batch : TimeseriesBatch ℤ
batch = record {
  points = point_at (pos 5) (pos 50) ∷ point_at (pos 2) (pos 21) ∷ [];
  project_id = "a";
}

update_window_incremental-outcome_example :
    let out = update_window_incremental "a" batch none service in
    (out.1.operation.code ≡ OperationCode.ok)
    ⊎ ((out.1.operation.code ≡ OperationCode.invalid_argument) × (out.0 ≡ service))
update_window_incremental-outcome_example = update_window_incremental-outcome "a" batch none service

batch_accepted :
    (update_window_incremental "a" batch none service).1.operation.code ≡ OperationCode.ok
unfolding update_window_incremental Operation.ok validate_value
batch_accepted = refl

service-IsWindow : IsWindow (window_at service (scoped_sequence_key (effective_project "a") "s1"))
unfolding window_at scoped_sequence_key
service-IsWindow = hot-IsWindow

update_window_incremental-view_example :
    let key = scoped_sequence_key (effective_project "a") "s1" in
    view (window_at (update_window_incremental "a" batch none service).0 key) (pos 5) ≡ (
      if ltb_ℤ (pos 5) (
        current_start
          (effective_project "a")
          (update_metadata (effective_project "a") batch.points none service))
      then none
      else first_some (some (point_at (pos 5) (pos 50))) (view (window_at service key) (pos 5)))
update_window_incremental-view_example =
    update_window_incremental-view "a" "s1" (pos 5) batch none service service-IsWindow
      batch_accepted

has_watermark : lookup "a" service.watermarks ≡ some (pos 3)
unfolding lookup
has_watermark = refl

no_watermark : lookup "a" fresh.watermarks ≡ none
unfolding lookup
no_watermark = refl

watermark-raised_example :
    (w' : ℤ) × (lookup "a" (update_metadata "a" batch.points none service).watermarks ≡ some w')
    × (pos 3 ≤ℤ w')
    × All (λ p. p.time ≤ℤ w') batch.points
watermark-raised_example = watermark-raised "a" batch.points none service (pos 3) has_watermark

watermark-first_batch_example :
    lookup "a" (update_metadata "a" batch.points none fresh).watermarks ≡ some (pos 2)
unfolding back_time
watermark-first_batch_example =
    watermark-first_batch "a" (point_at (pos 5) (pos 50)) (point_at (pos 2) (pos 21) ∷ []) none
      fresh no_watermark

start_of_window-bounds_example :
    (min_time ≤ℤ start_of_window (pos 3) (pos 10))
    × (start_of_window (pos 3) (pos 10) ≤ℤ pos 3)
    × (start_of_window (pos 3) (pos 10) ≢ min_time
        → start_of_window (pos 3) (pos 10) +ℤ pos 10 ≡ pos 3)
    × (min_time ≤ℤ min_time +ℤ pos 10)
    × (min_time +ℤ pos 10 ≤ℤ max_time)
start_of_window-bounds_example =
    start_of_window-bounds (pos 3) (pos 10) (omega arith) (omega arith) (omega arith) (omega arith)

read_range-view_example :
    Ascending (read_range (pos 2) (pos 3) hot)
    × (find_at (pos 2) (read_range (pos 2) (pos 3) hot) ≡ some (point_at (pos 2) (pos 20)))
read_range-view_example = read_range-view (pos 2) (pos 3) (pos 2) hot hot-IsWindow.ordered

following-take_example :
    following 2 hot.points hot.late_points
    ≡ point_at (pos 1) (pos 10) ∷ point_at (pos 2) (pos 20) ∷ []
unfolding interleave
following-take_example = following-take 2 hot.points hot.late_points hot-IsWindow.ordered.keyed

patch_sequence-view_example :
    view (patch_sequence (pos 1) (pos 2) (point_at (pos 2) (pos 22) ∷ []) hot) (pos 1) ≡ none
patch_sequence-view_example =
    patch_sequence-view (pos 1) (pos 2) (pos 1) (point_at (pos 2) (pos 22) ∷ []) hot
      hot-IsWindow.ordered (omega arith) (omega arith)

abbrev query : WindowQuery
query = record {
  sequence_ids = "s1" ∷ [];
  start_time = some (pos 2);
  end_time = some (pos 9);
  preceding_points = 0;
  following_points = 0;
  preserve_window_bounds = false;
  project_id = "a";
}

windows_ordered :
    (w : SequenceWindow ℤ ℤ) → window_of "a" "s1" service.sequence_windows ≡ some w → IsOrdered w
unfolding lookup scoped_sequence_key effective_project
windows_ordered w e = let same : hot ≡ w = cc e in subst IsOrdered same hot-IsWindow.ordered

watermark_found : lookup (effective_project "a") service.watermarks ≡ some (pos 3)
unfolding effective_project lookup
watermark_found = refl

positive_size : leb_ℤ (window_size service "a") (pos 0) ≡ false
unfolding window_size
positive_size = refl

in_order : is_reversed query.start_time query.end_time ≡ false
unfolding is_reversed
in_order = refl

query_window_data-answers_example :
    ((query_window_data "a" query service).operation.code ≡ OperationCode.ok)
    × (value_or (lookup "s1" (query_window_data "a" query service).data_.sequence_values) []
        ≡ each_time "s1" query.sequence_ids
            (reads_of query (pos 2) (pos 9) (window_of "a" "s1" service.sequence_windows)))
    × ((t : Timestamp)
        → find_at t (
            within
              (pos 2)
              (pos 9)
              (reads_of query (pos 2) (pos 9) (window_of "a" "s1" service.sequence_windows)))
          ≡ (if is_between (pos 2) (pos 9) t
              then view_of (window_of "a" "s1" service.sequence_windows) t
              else none))
query_window_data-answers_example =
    query_window_data-answers "a" query service "s1" (pos 3) refl (refl, tt) windows_ordered
      watermark_found positive_size in_order refl

-- ===== src/Lib.antt =====
-- Verification library of the time-series core (sfkg-timeseries-core): ingestion of points, runtime
-- configuration, the hot window of recent points, and the rules that are checked on it.
--
-- A request for ingestion goes through `IngestService`, which resolves each point against
-- `RuntimeConfigRegistry`; the resolved batch goes to `WindowService`, which keeps the recent points
-- of every sequence; the services of alignment, statistics, derived series and constraints read the
-- window. `validation` guards each entry.
--
-- The files, and what they model:
--   Base, Base/*       shared names: Boolean tests, lists, signed integers, texts, dictionaries as
--                      association lists in the order of their entries, results of checks.
--   Floating           `double` and `long double`: an interface, with no law assumed.
--   Types, Types/*     include/sfkg/timeseries/core/types.hpp: one record or data type for each.
--   Operation          src/operation_helpers.hpp.
--   Validation         src/data_validation.cpp; Validation/Accepts: what it accepts.
--   Rules              src/constraint_rule_helpers.hpp; Rules/Accepted: what it accepts.
--   Registry           src/runtime_config_registry.cpp, `RuntimeConfigRegistry`. Instances, Constraints,
--                      Relations and Derived hold the updates, Lookups the queries; Keys, Snapshot,
--                      Index, Agreement and Incremental the proofs.
--   Ingest             src/ingest_service.cpp, `ingestAndResolveData`; Ingest/Resolved: its results.
--   Window             src/window_service.cpp. One sequence: Points, Statistics and Sequence hold the
--                      operations, Query the range queries, Patch the changes to derived sequences.
--                      The whole service: Service holds the state (`WindowService`) and its metadata,
--                      Batch and Commit `updateWindowIncremental`, Answer `queryWindowData`, Summary
--                      `queryWindowStatistics`. The proofs on one sequence stand in Lookup, Placement,
--                      Merge, View, Aside, Invariant, Later, Branches, Update, Prune, Prepare, Refinement,
--                      Bounded, Ranges, Between, Context and Patched, those on its statistics in Lasting,
--                      Counted, Figures, Extremes, Summarized and Measured, those on the service in
--                      Served, Accepted, Watermark, ReadAll and Answered.
--   Engine             src/constraint_check_engine.cpp: a rule at one anchor; Engine/Combine the grouping of
--                      outcomes, Aggregate the statistics of a window, Anchors the loops over points and
--                      samples, Check the three `checkConstraints`. The proofs: Ends, InBounds and Total
--                      on the accesses to containers; Combine/Members, Keys, Entries,
--                      Grouped, Gathered and Satisfied on clauses; Holds, Order, SampleLoop, Visited,
--                      Outcomes and Aligned on aligned samples.
--   Executor           src/grpc/ingest_task_executor.cpp: configured sizes, and the merge of the writers'
--                      results. Routing holds the split of a batch over the writers, Pipeline the lanes
--                      of accepted tasks, BatchKeys a whole submission. The proofs: Configured and
--                      Merged; Writers and Sharded on the split; Submit on a submission; Ordered,
--                      Admitted, Queue and Reachable on the order of hot updates; Places, Lanes, LaneSteps
--                      and Counted on the count of lanes; HotWork, Progress and Drained on the end of
--                      all tasks.
--   Tests, Tests/*     the theorems at concrete inputs.
-- Paths are below sfkg-timeseries-core/.
--
-- How code becomes definitions. A method is a function from the state to the state and the result. A
-- method that validates a copy and then publishes it returns the state it was given on every error.
-- An unordered map is an association list; the theorems speak of lookups only. A loop is a recursion
-- on the list that it runs over, so no fuel is used. Mutexes are left out: a method is one step of the
-- model, and the theorems are about one such step or a sequence of them. The sequences of a batch are
-- updated one after the other here, and on several threads there: each has its own window and lock, so
-- the order does not show. What other calls may see between the two locks of an update is not modelled.
--
-- `std::int64_t` times are integers; the start of the live window is the only one that is computed, by a
-- subtraction behind its guard. Counts are natural numbers: they count entries in memory and
-- cannot reach 2^64, except for the update generation, which stops at 2^64 - 1 as in the code. The sum
-- of a window's values, and so its average, is modelled over the interface to `long double`; the
-- theorems on statistics are on the counts and the extremes.
--
-- `at` of a missing key and an index past the end have no result in the constraint checks of the model
-- (`fault`). `std::lower_bound` is the number of leading entries
-- before the time, which is what it gives on ordered data.
--
-- The executor of ingestion tasks is a step relation on what its mutexes guard: a worker takes a task,
-- passes the wait for the predecessors, or ends its part, and a caller submits a task, in any order. A
-- task is named by its number in the order of admission, and the futures it waits for by the tasks
-- that fulfil them; the end of a hot update (`set_value`), the end of its lane (the first critical
-- section of `completeTask`) and the count of the task (the second one) are steps of their own. The
-- result that `completeHot` and `completeCold` store is not part of the state. What a worker runs is
-- left open, and may end by an exception; the null checks of `trySubmit` are left out.
--
-- Not modelled: the grouping of tasks in the window service, the gRPC service and the conversion of
-- its messages, the TDengine client, the storage facade, the executor of notifications, and the services
-- of history, alignment, statistics and derived series.
pub mod Base
pub mod Floating
pub mod Types
pub mod Operation
pub mod Validation
pub mod Rules
pub mod Registry
pub mod Ingest
pub mod Window
pub mod Executor
pub mod Engine
pub mod Tests

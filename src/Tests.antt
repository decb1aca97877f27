-- ===== src/Tests.antt =====
-- The theorems at concrete inputs, and the tests of definitions.
mod Data
mod Registry
mod Checks
mod Window
mod Service
mod Statistics
mod Executor
mod Engine

-- ===== src/Executor.antt =====
-- app/core/executor.py.
pub mod Triggers
pub mod Ids
pub mod State
pub mod Exits
pub mod TakeProfit
pub mod Fills
pub mod Reconcile
pub mod Runtime
pub mod ExitLaws
pub mod Ticks
pub mod Trailing
pub mod Ladder
pub mod Cycle
pub mod Restore
mod Tests

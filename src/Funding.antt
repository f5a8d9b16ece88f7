-- ===== src/Funding.antt =====
-- Funding-rate arbitrage (app/core/fr_execution): a LONG leg on one exchange and a SHORT leg on another.
pub mod Sizes
pub mod Dispatch
pub mod Names
pub mod Legs
pub mod NameSets
pub mod KillSwitch
pub mod PairTracker
pub mod Gateway
pub mod Orders
pub mod Engine
pub mod Policies
pub mod Halt
pub mod Legging
pub mod Closing
pub mod Canonical
pub mod Opening
pub mod Reconcile
pub mod KillAll
mod Tests

-- ===== src/Commerce.antt =====
-- examples/commerce_demo/src/commerce_demo: the commerce scenario.
pub mod Money
pub mod Models
pub mod Repository
pub mod Method
pub mod Sandbox
pub mod Invariants
pub mod Ordering
pub mod Tools
pub mod Scenario
pub mod Agents
pub mod FaultCases

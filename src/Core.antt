-- ===== src/Core.antt =====
-- packages/rift_core/src/rift_core: the domain models and the contracts.
pub mod Json
pub mod Fault
pub mod Invocation
pub mod Outcome
pub mod Spec
pub mod Run
pub mod Contracts

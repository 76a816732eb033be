-- ===== src/Engine.antt =====
-- packages/rift_fault_engine/src/rift_fault_engine: the executors that number, fault and record
-- tool calls.
pub mod Exceptions
pub mod State
pub mod Action
pub mod Record
pub mod Execute
pub mod Overlap

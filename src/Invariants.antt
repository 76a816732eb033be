-- ===== src/Invariants.antt =====
-- packages/rift_invariant_engine/src/rift_invariant_engine: the evaluation of
-- invariants, and the generic invariants.
pub mod Evaluator
pub mod Values
pub mod Library

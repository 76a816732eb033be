-- ===== src/Runner.antt =====
-- packages/rift_experiment_runner/src/rift_experiment_runner: the runs of an experiment, the tool
-- boundary of one run, and the rules that turn its evidence into outcomes, classifications and
-- comparisons.
pub mod Gateway
pub mod Evaluation
pub mod Differences
pub mod Compare
pub mod Adapter
pub mod Setup
pub mod Lifecycle

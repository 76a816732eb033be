-- ===== src/Examples.antt =====
-- The theorems at concrete inputs, with the data that they use.
mod Data
mod Core
mod Engine
mod Gateway
mod Verdicts
mod Agent
mod Commerce
mod Scenario

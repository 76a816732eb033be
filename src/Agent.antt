-- ===== src/Agent.antt =====
-- packages/rift_agent_adapters/src/rift_agent_adapters: agents behind the adapter contract.
pub mod Script
pub mod Scripted

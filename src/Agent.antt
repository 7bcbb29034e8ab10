-- ===== src/Agent.antt =====
-- src/reconcile/agent/
pub mod Schemas
pub mod Planner
pub mod Fuzzy
pub mod State
pub mod Nodes
pub mod Dispatching
pub mod Graph
pub mod Guards
pub mod Pairing
pub mod Justified
pub mod Logbook
pub mod Runs
pub mod Service
pub mod Outcomes
pub mod Llm
pub mod Naming
pub mod Named
pub mod Completion
pub mod Completed
pub mod Production

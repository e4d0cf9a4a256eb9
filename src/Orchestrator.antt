-- ===== src/Orchestrator.antt =====
-- The orchestrator of work items (internal/orchestrator).
pub mod Items
pub mod Topology
pub mod Admit
pub mod Store
pub mod WorkList

-- ===== src/Examples.antt =====
-- The program's parts on concrete inputs: each module applies the theorems about the code of one
-- part to a small fleet, a small backlog or a short stream.
mod Data
mod Orchestrator
mod WorkList
mod Daemon
mod Logs
mod Control
mod Nodes
mod Fleet
mod Load
mod Command
mod Gateway
mod Preset
mod SpinloopFile

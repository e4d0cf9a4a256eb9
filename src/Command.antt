-- ===== src/Command.antt =====
-- The commands that act on a fleet (cmd/spinloop): which fleet one acts on, and how a launch is routed
-- through it.
pub mod Target
pub mod Route

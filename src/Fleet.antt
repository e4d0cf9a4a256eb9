-- ===== src/Fleet.antt =====
-- The client side of the fleet (internal/fleet).
pub mod Tags
pub mod Answer
pub mod Config
pub mod Load
pub mod Endpoint
pub mod Select
pub mod Waiting
pub mod Wakeable
pub mod Wake

-- ===== src/Daemon.antt =====
-- The daemon that runs one engine under supervision (internal/daemon).
pub mod Tee
pub mod History
pub mod Activity
pub mod Speed
pub mod Sampler
pub mod Supervisor
pub mod PtyLog
pub mod Logs
pub mod Control

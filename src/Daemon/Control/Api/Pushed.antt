-- ===== src/Daemon/Control/Api/Pushed.antt =====
-- A config that is pushed while an engine runs, and a start after it (internal/daemon/daemon.go).
use spinloop.Daemon.Control.{Daemon}

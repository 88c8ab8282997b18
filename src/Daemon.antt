-- ===== src/Daemon.antt =====
-- internal/daemon: the drain gate and the hub of long operations.
pub mod Gate
pub mod OperationEvent
pub mod OperationHub
pub mod Problem

-- ===== src/Scheduler.antt =====
-- `MatrixScheduler` (matrix/src/scheduler_stub.h, matrix/src/scheduler_stub.cpp).
pub mod State
pub mod Queue
pub mod Swap
pub mod Notify
pub mod Ready
pub mod Steal
pub mod Monitor
pub mod Execute
pub mod Serve
pub mod Record

-- ===== src/Worker.antt =====
-- The worker process (axontask-worker/src).
pub mod Control
pub mod Listening
pub mod AdapterError
pub mod AdapterEventKind
pub mod AdapterEvent
pub mod Adapter
pub mod Mock
pub mod MockRuns
pub mod Timeout
pub mod Execute
pub mod Outcome
pub mod Loop
pub mod Capacity
pub mod Emitter
pub mod Emitted
pub mod Overlap
pub mod Places
pub mod Numbers

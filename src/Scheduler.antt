-- ===== src/Scheduler.antt =====
-- The two scheduling policies of src/crates/l4/scheduler, each a state of tasks and a ready queue that
-- is kept sorted by binary search.
pub mod Queue
pub mod Autosar
pub mod LinuxLike
mod Tests

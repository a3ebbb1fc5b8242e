-- ===== src/Scheduler.antt =====
-- The process scheduler, Computer_Science-360/lab3/scheduler.c.
pub mod State
pub mod Queues
pub mod Dispatch
pub mod Cycle
mod Tests
mod Chain
mod ReadyQueue
mod BlockedList
mod Unlink
mod Release
mod Unblock
mod Shortest
mod Selection
mod Clock
mod Census
mod Whole

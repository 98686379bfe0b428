-- ===== src/Wheel.antt =====
-- src/timer.c: timers on a wheel of slots, each a circular list, with ids from a bitmap and a
-- red-black tree that finds a timer by its id.
pub mod State
pub mod Lifecycle
pub mod Closing
pub mod Timers
pub mod Deletion
pub mod Worker
pub mod Due
pub mod Turning
pub mod Checks
pub mod Retire
pub mod Heads
pub mod Bytes
pub mod Init
pub mod Ids
pub mod Enlist
pub mod Abstract
pub mod Place
pub mod Move
pub mod Starting
pub mod Freeing
pub mod Draining
pub mod Deleting
pub mod Deleted
pub mod Adding
pub mod Added
pub mod Entered
pub mod Ready
pub mod Waiting
pub mod Quiet
mod Tests

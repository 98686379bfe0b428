-- ===== src/MinHeap.antt =====
-- src/minheap_timer.c: timers in an array that is a binary heap by expiry time.
mod Tests
pub mod State
pub mod Queue
pub mod Fire
pub mod Pop
pub mod SiftDown
pub mod Cycle
pub mod Refuse
pub mod Insert
pub mod Push
pub mod Valid
pub mod SiftUp
pub mod Memory
pub mod Heap
pub mod Lifecycle
pub mod Worker

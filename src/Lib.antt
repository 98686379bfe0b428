-- ===== src/Lib.antt =====
-- simple-timer: timers for C programs, of two kinds, over a Linux timerfd.
--
-- The heap timer (src/minheap_timer.c, src/minheap_timer.h) keeps its timers in an array that is a
-- binary heap by expiry time; a thread wakes once a second and looks at the first. The time wheel
-- (src/timer.c, src/timer.h) hangs its timers on circular lists (src/list.h), one for each slot of
-- the wheel, numbers them by a bitmap of ids, and finds them by id in a red-black tree
-- (src/rbtree.c, src/rbtree.h).
--
-- Prelude, Prelude/Tests, Prelude/Arrays, Prelude/Int: shared names, Boolean tests, lists as arrays
--   and integers over the native numbers.
-- Machine, Machine/Ends, Machine/Locks: how a run of C code ends, total correctness, and the
--   read-write locks and mutexes of pthread as a thread sees them that holds none when it takes one:
--   `blocked` is a wait for a lock that another thread holds, which does not end while that thread
--   keeps it, and `fault` undefined behaviour.
-- Api, Api/Order: the types and comparison macros of src/timer.h.
-- MinHeap: src/minheap_timer.c.
--   State: the two structs, the store of live timers and parameter blocks, and single reads, writes
--     and lock operations. A pointer is a number, NULL is 0, a freed block is no longer in the store.
--   Queue: ti_push is `push`, with its parts `push_alloc`, `push_locked` and the loop `sift_up`;
--     repush is `repush`; ti_pop is `pop`, with its loop `sift_down`.
--   Lifecycle: create_mh_timer_manager, ti_init, ti_start, ti_stop, ti_close, ti_enable, ti_disable
--     and destroy_mh_timer_manager. Worker: the thread `entry`, round by round.
--   Heap, Memory, Valid: heap order, facts on the store, and what holds of a manager between calls.
--   SiftUp, Insert, Push, Refuse: ti_push. SiftDown, Pop: ti_pop. Fire: a round. Cycle: the life of a
--     manager. Tests, Tests/Thread, Tests/Calls: runs on small managers.
-- IdPool: the bitmap macros, find_min_id, timer_id_pop and timer_id_push of src/timer.c. Bits, Find,
--   Writes, Turnover, Exhaustion: single bits, the search, a write, and the two operations. Tests.
-- LinkedList: the functions of src/list.h over an explicit memory. Ring: what a list is.
--   Insert, Remove: list_add, list_add_tail and list_del. Frame: the other lists. Tests.
-- RbTree: the rotations, the search and the insertion of src/rbtree.c over an explicit memory.
--   Erase: rb_erase and its rebalancing. Search: rb_search against a walk over the whole tree.
--   Unchanged, First: insertion and erasure that find nothing to do, and insertion into an empty
--     tree.
--   Shape, Frame, Leads: a tree in memory with a way down into it, single writes, and what a step
--     keeps. RotateLeft, RotateRight, Paint: the rotations, and reads and changes of colour.
--   Balance: colours and black heights. RaiseLeft, RaiseRight, Rounds, RoundLeft, RoundRight,
--     Rebalance: rb_insert_rebalance, by the branches of its loop.
--   Ascending, Removal: the list of entries that a tree stands for. Descent: the search. Link, Grow,
--     Lookup: rb_insert, and rb_search after it.
--   Mend, MendLeft, MendRight, Short, ShortLeft, ShortRight, FillLeft, FillRight, Fill:
--     rb_erase_rebalance, by the branches of its loop. Cut, Unlink, Successor, Swap, Exchange,
--     Inner: how a node is taken out. Shrink, Closing: rb_erase. Tests, Tests/Growing: runs on small
--     trees.
-- Wheel: the time wheel of src/timer.c.
--   State: the structs, the memory, and single reads, writes and lock operations; the counters of
--     src/atomic.h. Lifecycle: create_timer_manager, ti_init, ti_start, ti_stop, ti_enable and
--     ti_disable. Closing: ti_close and destroy_timer_manager. Timers: check_timer, ti_add (`add`,
--     with its parts `add_checked`, `number`, `enlist` and `enter`) and del_and_add. Deletion:
--     ti_del. Worker: the thread `entry`, round by round, with its pass `scan` over a slot.
--   Due, Turning: the arithmetic of slots and rounds, and the hand. Heads, Bytes, Init, Ids: ti_init.
--   Enlist, Abstract, Place: the wheel as lists of timers, and the steps that keep it so. Move:
--     del_and_add. Adding, Added, Entered, Checks: ti_add. Ready: ti_init and ti_add. Waiting, Quiet:
--     a round in which no timer is due. Freeing, Starting, Retire: a list that is closed, the lock of
--     ti_start, a one-shot timer. Draining, Deleting: ti_del(0). Deleted: ti_del of one timer. Tests,
--     Tests/Life, Tests/Adding, Tests/Removing: runs on a small wheel.
--
-- What malloc, the clock, timerfd and pthread_create return, and what other threads do during a
-- sleep or between two rounds, are arguments of the operations. Callbacks, signals, new threads and
-- closed descriptors are recorded as events; what a callback does to the manager is not modelled.
-- Messages on stderr, thread attributes and signal masks have no state and are left out. Calls
-- through the function pointers of a manager are calls by name. `param_len` is not negative, and the
-- seconds of a time and the interval added to them stay within `time_t`. Keys of the tree are not
-- negative.
--
-- Fuel: `sift_up` at slot s takes at most s + 1 rounds, since the index falls, and is given s + 1;
-- `sift_down` on s timers is given s + 1, since the index grows and stays at most s; a byte has eight
-- bits for `find_bit`. The search, the descents and the rebalancing of a tree take fuel as an
-- argument; for the search more than the number of nodes is enough, and for insertion and erasure two
-- more than the number of nodes.
--
-- The wheel: a timer is known by the address of the list head in it, so that `container_of` changes
-- no address, and the list heads of the nodes stand one after the other from the address of `data`.
-- `slot_num` and the sizes of blocks stay below 2^31, and so does a count of timers. The fuel of the
-- loops over lists and trees is an argument of the operations; a list needs more than its entries. A
-- caller's parameter is the bytes that its pointer leads to.
--
-- Not modelled: the inline assembly of src/atomic.h and its macros that nothing calls, the signal
-- handlers, which end their thread, and the programs in test and example. Values of the enums beside
-- those that src/timer.h names, which reach only the `default` labels of the switches of ti_start and
-- entry. A thread that takes a lock which it holds already: POSIX lets it wait for ever or get
-- EDEADLK, which the code does not look at.
mod Prelude
pub mod Machine
pub mod Api
pub mod MinHeap
pub mod IdPool
pub mod LinkedList
pub mod RbTree
pub mod Wheel

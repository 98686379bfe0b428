-- ===== src/MinHeap/Lifecycle.antt =====
-- The rest of the methods of src/minheap_timer.c: creation, `ti_init`, `ti_start`, `ti_stop`,
-- `ti_close`, `ti_enable`, `ti_disable` and destruction.
-- What the system calls return is an argument, and so is what the timer thread does to the shared
-- state while a call sleeps or joins it.
use simple_timer.Prelude.{ℕ, zero, suc, ◌+◌, false, Option, none, some, ◌==◌, if◌then◌else◌, ltb}
use simple_timer.Prelude.Arrays.{replicate}
use simple_timer.Prelude.Int.{ℤ, pos, negsuc}
use simple_timer.Machine.{fault, pure, ◌>>=◌, ◌>>◌}
use simple_timer.Machine.Locks.{RwLock}
use simple_timer.Api.{Ptr, null, TimerBool, timer_true, timer_false, TimerStartType, unblock, block}
use simple_timer.MinHeap.State.{
  unset, live, dangling, Manager, World, Op, kill_thread, close_fd, manager, modify, emit, wrlock,
  rdlock, unlock, load_slot, load_timer, free_timer, free_param, destroy_locks,
}

abbrev pub default_timer_max_num : ℕ
default_timer_max_num = 64

-- `memset` of the structure to 0, `pthread_rwlock_init` and `pthread_mutex_init`.
abbrev pub blank : Manager
blank = record {
  max_timer_num = 0;
  cur_timer_num = 0;
  queue = unset;
  pid = 0;
  init_flag = 0;
  start_flag = 0;
  enable_flag = 0;
  lock = RwLock.free;
  mh_lock = false;
  timerfd = some 0;
}

-- `p` is what `malloc` returns.
unfoldable pub create : (p : Ptr) → Op Ptr
create p = if p == null then pure null else do modify λ _. blank; pure p

-- What the system gives one call of `ti_init`: `timerfd_create` and the `malloc` of the array.
pub record InitEnv : Type 0 where
  pub fd : Option ℕ
  pub array : Ptr

-- `max_size <= 0` asks for the default.
unfoldable pub capacity : ℤ → ℕ
capacity (pos zero) = default_timer_max_num
capacity (pos (suc n)) = suc n
capacity (negsuc n) = default_timer_max_num

unfoldable pub init_array : Ptr → ℤ → Op TimerBool
init_array array max_size = do
  modify λ m. record m { max_timer_num = capacity max_size; cur_timer_num = 0; pid = 0 }
  if array == null
      then (do modify λ m. record m { queue = unset }; unlock; pure timer_false)
      else (do
        modify λ m. record m {
          queue = live (replicate m.max_timer_num null);
          init_flag = 1;
          enable_flag = 1;
        }
        unlock
        pure timer_true)

unfoldable pub init : InitEnv → Ptr → ℤ → Op TimerBool
unfolding init_array
init env this max_size = if this == null then pure timer_false else do
  wrlock
  m ← manager
  if m.init_flag == 1 then (do unlock; pure timer_false) else do
    modify λ m. record m { timerfd = env.fd }
    elim env.fd [ none ↦ (do unlock; pure timer_false) | some fd ↦ init_array env.array max_size ]

-- `sleep(1)`, in which the timer thread may run, and the signal to that thread if it still runs.
unfoldable pub halt : (sleep : World → World) → Op (Unit {0})
halt sleep = do
  modify λ m. record m { start_flag = 0 }
  λ w. pure tt (sleep w)
  m ← manager
  if m.pid == 0 then pure tt else do emit (kill_thread m.pid); modify λ m. record m { pid = 0 }

unfoldable pub stop : (sleep : World → World) → Ptr → Op (Unit {0})
unfolding halt
stop sleep this =
    if this == null
    then pure tt
    else do rdlock; m ← manager; if m.start_flag == 0 then unlock else do halt sleep; unlock

-- What the system gives one call of `ti_start`: the id of the thread if `pthread_create` succeeds,
-- and what the threads do while `pthread_join` waits. Its result is only printed.
pub record StartEnv : Type 0 where
  pub created : Option ℕ
  pub joined : World → World

unfoldable pub start : StartEnv → Ptr → TimerStartType → Op (Unit {0})
start env this kind = if this == null then pure tt else do
  wrlock
  m ← manager
  if m.start_flag == 1 then unlock else do
    modify λ m. record m { start_flag = 1 }
    elim env.created [
      | none ↦ (do modify λ m. record m { start_flag = 0; pid = 0 }; unlock)
      | some pid ↦ (do
        modify λ m. record m { pid = pid }
        unlock
        elim kind [ unblock ↦ pure tt | block ↦ λ w. pure tt (env.joined w) ])
    ]

-- The loop of `ti_close` over the slots from `cnt` on, of which `rounds` are left.
unfoldable pub free_slots : (rounds cnt : ℕ) → Op (Unit {0})
free_slots zero cnt = pure tt
free_slots (suc rounds) cnt = do
  temp ← load_slot cnt
  if temp == null then pure tt else do
    x ← load_timer temp
    if x.param_len == 0 then pure tt else free_param x.param
    free_timer temp
  free_slots rounds (cnt + 1)

-- `free(p->queue)` if it is not NULL.
unfoldable pub free_queue : Op (Unit {0})
free_queue = do
  m ← manager
  elim m.queue [
    | unset ↦ pure tt
    | live q ↦ modify λ m. record m { queue = dangling }
    | dangling ↦ λ _. fault
  ]

-- `close(p->timerfd)` if it is above 2.
unfoldable pub close_timerfd : Op (Unit {0})
close_timerfd = do
  m ← manager
  elim m.timerfd [ none ↦ pure tt | some fd ↦ if ltb 2 fd then emit (close_fd fd) else pure tt ]

-- With `init_flag` 0 the call returns and keeps the lock.
unfoldable pub close : (sleep : World → World) → Ptr → Op (Unit {0})
unfolding halt free_slots free_queue close_timerfd
close sleep this = if this == null then pure tt else do
  wrlock
  m ← manager
  if m.init_flag == 0 then pure tt else do
    if m.start_flag == 0 then pure tt else halt sleep
    n ← manager
    free_slots n.max_timer_num 0
    modify λ m. record m { max_timer_num = 0 }
    free_queue
    close_timerfd
    modify λ m. record m { init_flag = 0 }
    unlock

-- `destroy_mh_timer_manager`, which calls `close` through the pointer. The structure itself is freed at
-- the end.
unfoldable pub destroy_manager : (sleep : World → World) → Ptr → Op (Unit {0})
unfolding close
destroy_manager sleep this =
    if this == null then (λ _. fault) else do close sleep this; destroy_locks

unfoldable pub enable : Ptr → Op (Unit {0})
enable this =
    if this == null then pure tt else do rdlock; modify λ m. record m { enable_flag = 1 }; unlock

unfoldable pub disable : Ptr → Op (Unit {0})
disable this =
    if this == null then pure tt else do rdlock; modify λ m. record m { enable_flag = 0 }; unlock

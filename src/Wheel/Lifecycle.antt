-- ===== src/Wheel/Lifecycle.antt =====
-- The life of a manager of src/timer.c: creation, `ti_init`, `ti_start`, `ti_stop`, `ti_enable` and
-- `ti_disable`. What the system calls return is an argument, and so is
-- what the timer thread does to the shared state while a call sleeps or joins it.
use simple_timer.Prelude.{
  ℕ, zero, suc, ◌+◌, Bool, ◌&&◌, Option, none, some, List, [], ◌∷◌, ◌==◌, if◌then◌else◌, ltb, leb,
}
use simple_timer.Prelude.Arrays.{replicate}
use simple_timer.Machine.{pure, deref, ◌>>=◌, ◌>>◌}
use simple_timer.Machine.Locks.{RwLock}
use simple_timer.Api.{Ptr, null, TimerBool, timer_true, timer_false, TimerStartType, unblock, block}
use simple_timer.LinkedList.{init_list_head}
use simple_timer.IdPool.{bitmap_bytes}
use simple_timer.Wheel.State.{
  unset, live, Manager, World, Op, kill_thread, manager, modify, emit, wrlock, rdlock, unlock,
  on_links, load_node, store_node, head_of, set_heads,
}

-- `struct timer_manager_conf`.
pub record TimerManagerConf : Type 0 where
  pub time_slot : ℕ
  pub slot_num : ℕ
  pub timer_max_num : ℕ

unfoldable pub check_timer_manager_conf : TimerManagerConf → Bool
check_timer_manager_conf cf = ltb 0 cf.time_slot && (leb 2 cf.slot_num && ltb 0 cf.timer_max_num)

-- `memset` of the structure to 0, and `pthread_rwlock_init`.
abbrev pub blank : Manager
blank = record {
  time_slot = 0;
  slot_num = 0;
  timer_max_num = 0;
  cur_timer_num = 0;
  cur_slot = 0;
  pid = 0;
  timer_fd_min_free = 0;
  init_flag = 0;
  start_flag = 0;
  enable_flag = 0;
  lock = RwLock.free;
  timerfd = some 0;
  timer_fd_bitmap = unset;
  slots = unset;
  rb_root = null;
}

-- `p` is what `malloc` returns.
unfoldable pub create : (p : Ptr) → Op Ptr
create p = if p == null then pure null else do modify λ _. blank; pure p

-- What the system gives one call of `ti_init`: the descriptor of `timerfd_create`, the address of the
-- list heads of `data`, and the bytes that the block of the bitmap holds when `malloc` returns it.
pub record InitEnv : Type 0 where
  pub fd : Option ℕ
  pub base : Ptr
  pub bitmap : Option (ℕ → ℕ)

-- The block of `n` bytes with these contents, from byte `i` on.
abbrev pub bytes_from : (ℕ → ℕ) → ℕ → ℕ → List ℕ
bytes_from f i zero = []
bytes_from f i (suc n) = f i ∷ bytes_from f (i + 1) n

-- `memset` of the first bytes to 0, undefined past the end of the block.
unfoldable pub clear_bytes : ℕ → List ℕ → Option (List ℕ)
clear_bytes zero xs = some xs
clear_bytes (suc n) [] = none
clear_bytes (suc n) (x ∷ xs) = elim (clear_bytes n xs) [ none ↦ none | some ys ↦ some (0 ∷ ys) ]

-- The loop over the nodes from `i` on, of which `rounds` are left.
unfoldable pub init_heads : (rounds i : ℕ) → Op (Unit {0})
unfolding load_node store_node head_of
init_heads zero i = pure tt
init_heads (suc rounds) i = do
  header ← head_of i
  on_links (init_list_head header)
  x ← load_node i
  store_node i (record x { slot_id = i })
  init_heads rounds (i + 1)

-- A failure of `ti_init` under the lock.
unfoldable pub init_fails : Op TimerBool
unfolding unlock
init_fails = do modify λ m. record m { init_flag = 0 }; unlock; pure timer_false

-- The bitmap and the rest. `sizeof(bitmap_bytes(n))`, the size of an `unsigned int`, is 4.
unfoldable pub init_bitmap : InitEnv → Op TimerBool
unfolding init_heads init_fails unlock bitmap_bytes clear_bytes
init_bitmap env = do
  m ← manager
  elim env.bitmap [
    | none ↦ (do
      set_heads env.base m.slot_num none
      modify λ m. record m { timer_fd_bitmap = unset; slots = unset }
      init_fails)
    | some bytes ↦ (do
      cleared ← deref (clear_bytes 4 (bytes_from bytes 0 (bitmap_bytes m.timer_max_num)))
      modify λ m. record m { timer_fd_bitmap = live cleared; timer_fd_min_free = 1 }
      init_heads m.slot_num 0
      unlock
      modify λ m. record m { enable_flag = 1 }
      pure timer_true)
  ]

-- The configuration and the array of nodes.
unfoldable pub init_nodes : InitEnv → TimerManagerConf → Op TimerBool
unfolding init_bitmap init_fails check_timer_manager_conf
init_nodes env conf =
    if check_timer_manager_conf conf
    then (do
      modify λ m. record m {
        time_slot = conf.time_slot;
        slot_num = conf.slot_num;
        timer_max_num = conf.timer_max_num;
        cur_timer_num = 0;
      }
      if env.base == null then (do modify λ m. record m { slots = unset }; init_fails) else (do
        set_heads env.base conf.slot_num (some (record { next = null; prev = null }))
        modify λ m. record m {
          slots = live (record {
            base = env.base;
            nodes = replicate conf.slot_num (record { slot_id = 0; timer_cnt = 0 });
          });
        }
        init_bitmap env))
    else init_fails

-- The branch of the source for no configuration behind the first test is never reached.
unfoldable pub init : InitEnv → Ptr → Option TimerManagerConf → Op TimerBool
unfolding init_nodes init_fails wrlock unlock
init env this none = pure timer_false
init env this (some conf) = if this == null then pure timer_false else do
  wrlock
  m ← manager
  if m.init_flag == 1 then (do unlock; pure timer_false) else do
    modify λ m. record m { init_flag = 1; timerfd = env.fd }
    elim env.fd [ none ↦ init_fails | some fd ↦ init_nodes env conf ]

-- `sleep(1)`, in which the timer thread may run, and the signal to that thread if it still runs.
unfoldable pub halt : (sleep : World → World) → Op (Unit {0})
halt sleep = do
  modify λ m. record m { start_flag = 0 }
  λ w. pure tt (sleep w)
  m ← manager
  if m.pid == 0 then pure tt else do emit (kill_thread m.pid); modify λ m. record m { pid = 0 }

unfoldable pub stop : (sleep : World → World) → Ptr → Op (Unit {0})
unfolding halt wrlock unlock
stop sleep this =
    if this == null
    then pure tt
    else do wrlock; m ← manager; if m.start_flag == 0 then unlock else do halt sleep; unlock

-- What the system gives one call of `ti_start`: the id of the thread if `pthread_create` succeeds,
-- and what the threads do while `pthread_join` waits.
pub record StartEnv : Type 0 where
  pub created : Option ℕ
  pub joined : World → World

-- Each case of the `switch` gives the lock back, and the end of the function does so again.
unfoldable pub start : StartEnv → Ptr → TimerStartType → Op (Unit {0})
unfolding wrlock unlock
start env this kind = if this == null then pure tt else do
  wrlock
  m ← manager
  if m.start_flag == 1 then unlock else do
    modify λ m. record m { start_flag = 1 }
    elim env.created [
      | none ↦ (do modify λ m. record m { start_flag = 0; pid = 0 }; unlock)
      | some pid ↦ (do
        modify λ m. record m { pid = pid }
        unlock
        elim kind [ unblock ↦ pure tt | block ↦ λ w. pure tt (env.joined w) ]
        unlock)
    ]

unfoldable pub enable : Ptr → Op (Unit {0})
unfolding rdlock unlock
enable this =
    if this == null then pure tt else do rdlock; modify λ m. record m { enable_flag = 1 }; unlock

unfoldable pub disable : Ptr → Op (Unit {0})
unfolding rdlock unlock
disable this =
    if this == null then pure tt else do rdlock; modify λ m. record m { enable_flag = 0 }; unlock

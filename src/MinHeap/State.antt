-- ===== src/MinHeap/State.antt =====
-- `struct mh_timer_internal` and `struct mh_timer_s_internal` of src/minheap_timer.c, the memory
-- that they lie in, and the reads and writes that the operations are made of.
use simple_timer.Prelude.{ℕ, Bool, Option, none, some, List, ◌==◌, if◌then◌else◌}
use simple_timer.Prelude.Arrays.{get_elem?, set}
use simple_timer.Machine.{ok, fault, Cmd, deref, ◌>>=◌, ◌>>◌}
use simple_timer.Machine.Locks.{
  RwLock, write_lock, read_lock, release, destroy, acquire_mutex, release_mutex, destroy_mutex,
}
use simple_timer.Api.{Ptr, null, TimerType, TimerRunType, Timespec}

pub record MhTimer : Type 0 where
  pub kind : TimerType
  pub run_type : TimerRunType
  pub interval : ℕ
  pub cb : Ptr
  pub param : Ptr
  pub param_len : ℕ
  pub expiretime : Timespec

-- The array behind `queue`: NULL, a live block, or a pointer to a block that has been freed.
pub data Block : Type 0 where
  unset : Block
  live : List Ptr → Block
  dangling : Block

-- `pid` is 0 where no thread runs; `timerfd` is `none` for -1.
pub record Manager : Type 0 where
  pub max_timer_num : ℕ
  pub cur_timer_num : ℕ
  pub queue : Block
  pub pid : ℕ
  pub init_flag : ℕ
  pub start_flag : ℕ
  pub enable_flag : ℕ
  pub lock : RwLock
  pub mh_lock : Bool
  pub timerfd : Option ℕ

-- What other parts of the system see of a call.
pub data Event : Type 0 where
  raise_alarm : Event
  spawn : Ptr → Ptr → Event
  call : Ptr → Ptr → Event
  kill_thread : ℕ → Event
  close_fd : ℕ → Event

-- The manager, the blocks of `malloc` that hold timers and those that hold parameters, and the
-- events so far, the last one first.
pub record World : Type 0 where
  pub man : Manager
  pub timers : Ptr → Option MhTimer
  pub params : Ptr → Option (List ℕ)
  pub events : List Event

abbrev pub Op : Type 0 → Type 0
Op = Cmd World

abbrev pub write : {A : Type 0} → (Ptr → A) → Ptr → A → Ptr → A
write h p c a = if a == p then c else h a

abbrev pub manager : Op Manager
manager w = ok w.man w

abbrev pub modify : (Manager → Manager) → Op (Unit {0})
modify f w = ok tt (record w { man = f w.man })

abbrev pub emit : Event → Op (Unit {0})
emit e w = ok tt (record w { events = List.◌∷◌ e w.events })

-- `pthread_rwlock_*` on `lock`, and `pthread_mutex_*` on `mh_lock`.
abbrev pub set_lock : World → RwLock → World
set_lock w l = record w { man = record (w.man) { lock = l } }

abbrev pub set_mutex : World → Bool → World
set_mutex w b = record w { man = record (w.man) { mh_lock = b } }

unfoldable pub wrlock : Op (Unit {0})
wrlock w = write_lock w.man.lock (set_lock w)

unfoldable pub rdlock : Op (Unit {0})
rdlock w = read_lock w.man.lock (set_lock w)

unfoldable pub unlock : Op (Unit {0})
unlock w = release w.man.lock (set_lock w)

unfoldable pub lock_queue : Op (Unit {0})
lock_queue w = acquire_mutex w.man.mh_lock (set_mutex w)

unfoldable pub unlock_queue : Op (Unit {0})
unlock_queue w = release_mutex w.man.mh_lock (set_mutex w)

unfoldable pub destroy_locks : Op (Unit {0})
destroy_locks = do (λ w. destroy_mutex w.man.mh_lock w); (λ w. destroy w.man.lock w)

-- `p->queue[i]`, read and written.
abbrev pub slots : Block → Option (List Ptr)
slots unset = none
slots (live q) = some q
slots dangling = none

unfoldable pub load_slot : ℕ → Op Ptr
load_slot i = do m ← manager; q ← deref (slots m.queue); deref (get_elem? q i)

unfoldable pub store_slot : ℕ → Ptr → Op (Unit {0})
store_slot i t = do
  m ← manager
  q ← deref (slots m.queue)
  old ← deref (get_elem? q i)
  modify λ m. record m { queue = live (set q i t) }

-- `*t`, undefined at NULL and where no live block stands.
unfoldable pub load_timer : Ptr → Op MhTimer
load_timer t w = deref (if t == null then none else w.timers t) w

unfoldable pub store_timer : Ptr → MhTimer → Op (Unit {0})
unfolding load_timer
store_timer t x = do
  old ← load_timer t
  λ w. ok tt (record w { timers = write w.timers t (some x) })

abbrev pub set_expiretime : Ptr → Timespec → Op (Unit {0})
set_expiretime t e = do x ← load_timer t; store_timer t (record x { expiretime = e })

unfoldable pub free_timer : Ptr → Op (Unit {0})
unfolding load_timer
free_timer t = do old ← load_timer t; λ w. ok tt (record w { timers = write w.timers t none })

-- `free` of a parameter block does nothing at NULL.
unfoldable pub free_param : Ptr → Op (Unit {0})
free_param b w = if b == null then ok tt w else elim (w.params b) [
  | none ↦ fault
  | some _ ↦ ok tt (record w { params = write w.params b none })
]

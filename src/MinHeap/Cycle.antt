-- ===== src/MinHeap/Cycle.antt =====
-- The life of a manager: `ti_init`, `ti_start`, `ti_stop`, `ti_close` and destruction.
use simple_timer.Machine.Ends.{Ends, ends}
use simple_timer.Prelude.{
  ◌⊎◌, inl, inr, Bool-cases, Option-cases, eqb→ne, ℕ, zero, suc, ◌<◌, ◌≡◌, ◌≢◌, refl, none, some,
  arith, ◌==◌, ne→eqb,
}
use simple_timer.Prelude.Int.{ℤ, pos, negsuc}
use simple_timer.Prelude.Arrays.{replicate, length-replicate, get_or-replicate, count-replicate}
use simple_timer.Machine.{ok, fault, blocked}
use simple_timer.Machine.Locks.{RwLock}
use simple_timer.Api.{Ptr, null, Timer, timer_true, timer_false, TimerStartType}
use simple_timer.MinHeap.State.{live, World, wrlock, rdlock, unlock, set_lock, destroy_locks}
use simple_timer.MinHeap.Queue.{PushEnv, push}
use simple_timer.MinHeap.Lifecycle.{
  InitEnv, StartEnv, capacity, init, init_array, start, stop, close, enable, disable,
  destroy_manager,
}
use simple_timer.MinHeap.Valid.{IsValid, IsIdle}

pub capacity-pos : (max_size : ℤ) → 0 < capacity max_size
unfolding capacity
capacity-pos (pos zero) = omega arith
capacity-pos (pos (suc n)) = omega arith
capacity-pos (negsuc n) = omega arith

-- Where a descriptor and an array are to be had, `ti_init` of a manager that is not initialised and
-- has no lock held makes a valid, empty, enabled manager with room for `max_size` timers, or for 64
-- if that is not positive, and gives the lock back.
pub init-IsValid :
    (env : InitEnv) (this : Ptr) (max_size : ℤ) (w : World) (fd : ℕ)
    → this ≢ null
    → IsIdle w.man
    → w.man.init_flag ≢ 1
    → env.fd ≡ some fd
    → env.array ≢ null
    → (w' : World) × (init env this max_size w ≡ ok timer_true w')
      × IsValid w' (replicate (capacity max_size) null)
      × IsIdle w'.man
      × (w'.man.cur_timer_num ≡ 0)
      × (w'.man.max_timer_num ≡ capacity max_size)
      × (0 < w'.man.max_timer_num)
      × (w'.man.init_flag ≡ 1)
      × (w'.man.enable_flag ≡ 1)
unfolding init init_array wrlock unlock
init-IsValid env this max_size w fd given idle blank opened array = (
  record w {
    man = record (w.man) {
      max_timer_num = capacity max_size;
      cur_timer_num = 0;
      queue = live (replicate (capacity max_size) null);
      pid = 0;
      init_flag = 1;
      enable_flag = 1;
      timerfd = some fd;
      lock = RwLock.free;
    };
  },
  rw (ne→eqb _ _ given, idle.lock_free, ne→eqb _ _ blank, opened, ne→eqb _ _ array),
  record {
    array = refl;
    size = length-replicate _ _;
    room = omega arith;
    entries = record {
      filled = λ j p. absurd (omega arith);
      clear = λ j p. get_or-replicate _ null j;
      distinct = λ p r. omega (arith, count-replicate (capacity max_size) p r);
      heap = λ c p r. absurd (omega arith);
    };
  },
  record { lock_free = refl; mutex_free = idle.mutex_free },
  refl,
  refl,
  capacity-pos max_size,
  refl,
  refl,
)

-- With no lock held, `ti_init` of an initialised manager, and one for which no descriptor or no
-- array can be had, fails, gives the lock back and leaves the initialisation flag as it was. An
-- initialised manager stays as it is.
pub init-failure :
    (env : InitEnv) (this : Ptr) (max_size : ℤ) (w : World)
    → this ≢ null
    → IsIdle w.man
    → (w.man.init_flag ≡ 1) ⊎ (env.fd ≡ none) ⊎ (env.array ≡ null)
    → Ends
        (λ b w'.
          (b ≡ timer_false)
          × IsIdle w'.man
          × (w'.man.init_flag ≡ w.man.init_flag)
          × ((w' ≡ w) ⊎ (w.man.init_flag ≢ 1)))
        (init env this max_size w)
unfolding init init_array wrlock unlock
init-failure env this max_size w given idle why = elim (Bool-cases (w.man.init_flag == 1)) [
  | inl on ↦
      rw (ne→eqb this null given, idle.lock_free, on)
        (ends (
          refl,
          record { lock_free = refl; mutex_free = idle.mutex_free },
          refl,
          inl (ground arith),
        ))
  | inr off ↦ elim (Option-cases env.fd) [
    | inl closed ↦
        rw (ne→eqb this null given, idle.lock_free, off, closed)
          (ends (
            refl,
            record { lock_free = refl; mutex_free = idle.mutex_free },
            refl,
            inr (eqb→ne _ _ off),
          ))
    | inr (fd, opened) ↦
        let no_array : env.array ≡ null = ground (arith, eqb→ne _ _ off) in
        rw (ne→eqb this null given, idle.lock_free, off, opened, no_array)
          (ends (
            refl,
            record { lock_free = refl; mutex_free = idle.mutex_free },
            refl,
            inr (eqb→ne _ _ off),
          ))
  ]
]

-- The manager with the write lock held.
abbrev pub stuck : World → World
stuck w = set_lock w RwLock.exclusive

-- With no lock held, `ti_close` of a manager that is not initialised returns with the write lock
-- held: with that lock held, each call that takes it, made by a thread that does not hold it,
-- waits. `destroy_mh_timer_manager` of such a manager destroys a lock that is held.
pub close-uninitialised :
    (sleep : World → World) (this : Ptr) (w : World)
    → this ≢ null
    → IsIdle w.man
    → w.man.init_flag ≡ 0
    → (close sleep this w ≡ ok tt (stuck w))
      × ((env : InitEnv) (max_size : ℤ) → init env this max_size (stuck w) ≡ blocked)
      × ((env : PushEnv) (timer : Timer) → push env this timer (stuck w) ≡ blocked)
      × ((env : StartEnv) (kind : TimerStartType) → start env this kind (stuck w) ≡ blocked)
      × (stop sleep this (stuck w) ≡ blocked)
      × (enable this (stuck w) ≡ blocked)
      × (disable this (stuck w) ≡ blocked)
      × (destroy_manager sleep this w ≡ fault)
unfolding close init push start stop enable disable destroy_manager destroy_locks wrlock rdlock
close-uninitialised sleep this w given idle blank =
    let n = ne→eqb this null given in
    (
      rw (n, idle.lock_free, blank),
      λ env max_size. rw n,
      λ env timer. rw n,
      λ env kind. rw n,
      rw n,
      rw n,
      rw n,
      rw (n, idle.lock_free, blank, idle.mutex_free),
    )

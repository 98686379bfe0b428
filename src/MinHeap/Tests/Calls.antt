-- ===== src/MinHeap/Tests/Calls.antt =====
-- The calls of a manager's owner.
use simple_timer.Prelude.{◌⊎◌, inr, ◌<◌, ◌≡◌, ◌≢◌, refl, false, none, some, arith}
use simple_timer.Prelude.Int.{ℤ, pos}
use simple_timer.Prelude.Arrays.{replicate}
use simple_timer.Machine.{ok, fault, blocked}
use simple_timer.Machine.Locks.{RwLock}
use simple_timer.Machine.Ends.{Ends}
use simple_timer.Api.{null, Timer, timer_true, timer_false, TimerStartType}
use simple_timer.MinHeap.State.{unset, World}
use simple_timer.MinHeap.Queue.{PushEnv, push}
use simple_timer.MinHeap.Lifecycle.{
  InitEnv, StartEnv, capacity, init, start, stop, close, enable, disable, destroy_manager,
}
use simple_timer.MinHeap.Valid.{IsValid, IsIdle}
use simple_timer.MinHeap.Push.{Admits, heap_with_new}
use simple_timer.MinHeap.Refuse.{params_with_copy, push-full, push-no_memory, push-clock_failure}
use simple_timer.MinHeap.Cycle.{init-IsValid, init-failure, stuck, close-uninitialised}
use simple_timer.MinHeap.Tests.{
  three_running, two_byte_timer, two_byte_timer-Admits, system_at, at_second,
}

-- What `create_mh_timer_manager` leaves.
abbrev blank_world : World
blank_world = record (three_running 2 3) {
  man = record {
    max_timer_num = 0;
    cur_timer_num = 0;
    queue = unset;
    pid = 0;
    init_flag = 0;
    start_flag = 0;
    enable_flag = 0;
    lock = RwLock.free;
    mh_lock = false;
    timerfd = some 0;
  };
}

abbrev given_array : InitEnv
given_array = record { fd = some 3; array = 60 }

abbrev no_array : InitEnv
no_array = record { fd = some 3; array = 0 }

init-IsValid_example :
    (w' : World) × (init given_array 1 (pos 4) blank_world ≡ ok timer_true w')
    × IsValid w' (replicate (capacity (pos 4)) null)
    × IsIdle w'.man
    × (w'.man.cur_timer_num ≡ 0)
    × (w'.man.max_timer_num ≡ capacity (pos 4))
    × (0 < w'.man.max_timer_num)
    × (w'.man.init_flag ≡ 1)
    × (w'.man.enable_flag ≡ 1)
init-IsValid_example =
    init-IsValid given_array 1 (pos 4) blank_world 3 (omega arith)
      (record { lock_free = refl; mutex_free = refl }) (omega arith) refl (omega arith)

init-failure_example :
    Ends
      (λ b w'.
        (b ≡ timer_false)
        × IsIdle w'.man
        × (w'.man.init_flag ≡ 0)
        × ((w' ≡ blank_world) ⊎ (blank_world.man.init_flag ≢ 1)))
      (init no_array 1 (pos 4) blank_world)
init-failure_example =
    init-failure no_array 1 (pos 4) blank_world (omega arith)
      (record { lock_free = refl; mutex_free = refl }) (inr (inr refl))

close-uninitialised_example :
    (close (λ w. w) 1 blank_world ≡ ok tt (stuck blank_world))
    × ((env : InitEnv) (max_size : ℤ) → init env 1 max_size (stuck blank_world) ≡ blocked)
    × ((env : PushEnv) (timer : Timer) → push env 1 timer (stuck blank_world) ≡ blocked)
    × ((env : StartEnv) (kind : TimerStartType) → start env 1 kind (stuck blank_world) ≡ blocked)
    × (stop (λ w. w) 1 (stuck blank_world) ≡ blocked)
    × (enable 1 (stuck blank_world) ≡ blocked)
    × (disable 1 (stuck blank_world) ≡ blocked)
    × (destroy_manager (λ w. w) 1 blank_world ≡ fault)
close-uninitialised_example =
    close-uninitialised (λ w. w) 1 blank_world (omega arith)
      (record { lock_free = refl; mutex_free = refl }) refl

push-clock_failure_example :
    push (system_at none) 1 two_byte_timer (three_running 2 3)
    ≡ ok timer_false (record (three_running 2 3) {
      params = params_with_copy (three_running 2 3) (system_at none) two_byte_timer;
    })
push-clock_failure_example =
    push-clock_failure (two_byte_timer-Admits none) 1 (omega arith)
      (record { lock_free = refl; mutex_free = refl }) refl

abbrev full_world : World
full_world = record (three_running 2 3) {
  man = record ((three_running 2 3).man) { max_timer_num = 3 };
}

full_world-Admits : Admits full_world (system_at (some (at_second 0))) two_byte_timer
full_world-Admits = record {
  initialised = omega arith;
  enabled = omega arith;
  positive = omega arith;
  node_given = omega arith;
  node_fresh = refl;
  block_given = omega arith;
  readable = omega arith;
}

push-full_example :
    push (system_at (some (at_second 0))) 1 two_byte_timer full_world
    ≡ ok timer_false (record full_world {
      timers =
          heap_with_new full_world (system_at (some (at_second 0))) two_byte_timer (at_second 0);
      params = params_with_copy full_world (system_at (some (at_second 0))) two_byte_timer;
    })
push-full_example =
    push-full full_world-Admits 1 (omega arith) (record { lock_free = refl; mutex_free = refl })
      (at_second 0) refl (omega arith)

abbrev no_block : PushEnv
no_block = record { node = 40; block = 0; now = some (at_second 0) }

push-no_memory_example :
    push no_block 1 two_byte_timer (three_running 2 3) ≡ ok timer_false (three_running 2 3)
push-no_memory_example =
    push-no_memory no_block 1 two_byte_timer (three_running 2 3) (omega arith)
      (record { lock_free = refl; mutex_free = refl }) refl refl (inr refl)

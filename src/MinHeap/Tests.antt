-- ===== src/MinHeap/Tests.antt =====
-- Small managers on which the operations run, and the theorems at them.
mod Thread
mod Calls
use simple_timer.Prelude.{
  ℕ, zero, suc, ◌+◌, ◌<◌, ◌≤◌, ◌≡◌, ◌≢◌, refl, inl, inr, true, false, Option, none, some, List, [],
  ◌∷◌, Perm, ◌==◌, if◌then◌else◌, arith, ◌⊎◌,
}
use simple_timer.Prelude.Arrays.{get_or, length, set, count, replicate}
use simple_timer.Prelude.Int.{ℤ, pos, negsuc}
use simple_timer.Machine.{ok, fault, blocked}
use simple_timer.Machine.Ends.{Ends}
use simple_timer.Machine.Locks.{RwLock}
use simple_timer.Api.{
  Ptr, null, Timer, TimerBool, timer_true, timer_false, single_shot, direct, less, Timespec,
  TimerStartType,
}
use simple_timer.Api.Order.{◌≤ᵗ◌}
use simple_timer.MinHeap.State.{
  live, unset, MhTimer, Manager, World, call, rdlock, unlock, lock_queue, unlock_queue, load_timer,
  store_timer, load_slot, store_slot,
}
use simple_timer.MinHeap.Queue.{
  PushEnv, parent, push, push_alloc, push_locked, copy_param, pop, sift_up,
}
use simple_timer.MinHeap.Memory.{Timers, IsTimer, keys}
use simple_timer.MinHeap.Heap.{IsHeap, UpInv, put}
use simple_timer.MinHeap.Worker.{Round, expire}
use simple_timer.MinHeap.Valid.{IsQueue, IsValid, IsIdle}
use simple_timer.MinHeap.SiftUp.{Ready, Result, sift_up-Sifted}
use simple_timer.MinHeap.Push.{Admits, added, push_correct}

abbrev timer_due : ℕ → MhTimer
timer_due s = record {
  kind = single_shot;
  run_type = direct;
  interval = 1;
  cb = 7;
  param = 8;
  param_len = 0;
  expiretime = record { tv_sec = s; tv_nsec = 0 };
}

-- Timers at 10, 20 and 30, due at 1, `a` and `b`.
abbrev three_timers : ℕ → ℕ → Timers
three_timers a b p =
    if p == 10
    then some (timer_due 1)
    else if p == 20
    then some (timer_due a)
    else if p == 30
    then some (timer_due b)
    else none

abbrev queue_of_three : List Ptr
queue_of_three = 10 ∷ 20 ∷ 30 ∷ 0 ∷ []

abbrev three_running : ℕ → ℕ → World
three_running a b = record {
  man = record {
    max_timer_num = 4;
    cur_timer_num = 3;
    queue = live queue_of_three;
    pid = 5;
    init_flag = 1;
    start_flag = 1;
    enable_flag = 1;
    lock = RwLock.free;
    mh_lock = false;
    timerfd = some 3;
  };
  timers = three_timers a b;
  params = λ p. none;
  events = [];
}

filled_three : (a b j : ℕ) → j < 3 → IsTimer (three_timers a b) (get_or null queue_of_three j)
unfolding get_or
filled_three a b zero p = record { ne_null = omega arith; holds = refl }
filled_three a b (suc zero) p = record { ne_null = omega arith; holds = refl }
filled_three a b (suc (suc zero)) p = record { ne_null = omega arith; holds = refl }
filled_three a b (suc (suc (suc j))) p = absurd (omega arith)

clear_three : (j : ℕ) → 3 ≤ j → get_or null queue_of_three j ≡ null
unfolding get_or
clear_three zero p = absurd (omega arith)
clear_three (suc zero) p = absurd (omega arith)
clear_three (suc (suc zero)) p = absurd (omega arith)
clear_three (suc (suc (suc zero))) p = refl
clear_three (suc (suc (suc (suc j)))) p = refl

count_three : (p : Ptr) → p ≢ null → count p queue_of_three ≤ 1
unfolding count
count_three p ne = ground arith

IsHeap-three : (a b : ℕ) → 1 ≤ a → 1 ≤ b → IsHeap 3 (keys (three_timers a b) queue_of_three)
unfolding get_or less
IsHeap-three a b p q zero r t = absurd (omega arith)
IsHeap-three a b p q (suc zero) r t = ground arith
IsHeap-three a b p q (suc (suc zero)) r t = ground arith
IsHeap-three a b p q (suc (suc (suc c))) r t = absurd (omega arith)

three_running-IsValid : (a b : ℕ) → 1 ≤ a → 1 ≤ b → IsValid (three_running a b) queue_of_three
three_running-IsValid a b p q = record {
  array = refl;
  size = refl;
  room = omega arith;
  entries = record {
    filled = filled_three a b;
    clear = clear_three;
    distinct = count_three;
    heap = IsHeap-three a b p q;
  };
}

-- A timer with a two-byte parameter, and a system that has memory and a clock.
abbrev two_byte_timer : Timer
two_byte_timer = record {
  kind = single_shot;
  run_type = direct;
  interval = 2;
  cb = 7;
  param = some (65 ∷ 66 ∷ []);
  param_len = 2;
}

abbrev at_second : ℕ → Timespec
at_second s = record { tv_sec = s; tv_nsec = 0 }

abbrev system_at : Option Timespec → PushEnv
system_at clock = record { node = 40; block = 50; now = clock }

two_byte_timer-Admits :
    (clock : Option Timespec) → Admits (three_running 2 3) (system_at clock) two_byte_timer
two_byte_timer-Admits clock = record {
  initialised = omega arith;
  enabled = omega arith;
  positive = omega arith;
  node_given = omega arith;
  node_fresh = refl;
  block_given = omega arith;
  readable = omega arith;
}

push_correct_example :
    Ends
      (λ b w'.
        (b ≡ timer_true)
        × (q' : List Ptr) × (w'
            ≡ added
                (three_running 2 3)
                (system_at (some (at_second 0)))
                two_byte_timer
                (at_second 0)
                q')
        × IsValid w' q'
        × Perm q' (set queue_of_three 3 40))
      (push (system_at (some (at_second 0))) 1 two_byte_timer (three_running 2 3))
push_correct_example =
    push_correct (at_second 0) (three_running-IsValid 2 3 (omega arith) (omega arith))
      (two_byte_timer-Admits (some (at_second 0))) (omega arith) 1 (omega arith)
      (record { lock_free = refl; mutex_free = refl }) refl

-- The new timer is due at 2: it rises above the timer of slot 1, which is due at 4.
push_rises :
    elim (push (system_at (some (at_second 0))) 1 two_byte_timer (three_running 4 3)) [
      | ok b w ↦ w.man.queue
      | _ ↦ unset
    ]
    ≡ live (10 ∷ 40 ∷ 30 ∷ 20 ∷ [])
unfolding push push_alloc push_locked sift_up rdlock unlock lock_queue unlock_queue load_timer
    store_timer load_slot store_slot copy_param less
push_rises = refl

edges_four :
    (c : ℕ)
    → 0 < c
    → c < 4
    → c ≢ 3
    → put (keys (three_timers 2 3) queue_of_three) 3 (at_second 1) (parent c)
      ≤ᵗ put (keys (three_timers 2 3) queue_of_three) 3 (at_second 1) c
unfolding get_or less
edges_four zero p q r = absurd (omega arith)
edges_four (suc zero) p q r = refl
edges_four (suc (suc zero)) p q r = refl
edges_four (suc (suc (suc c))) p q r = absurd (omega arith)

order_four : UpInv 4 (keys (three_timers 2 3) queue_of_three) (at_second 1) 3
order_four = record { edges = edges_four; bridged = λ c p q r t. absurd (omega arith) }

sift_up-Sifted_example :
    Ends (Result 4 (three_running 2 3) queue_of_three 3 10) (sift_up 4 10 3 (three_running 2 3))
sift_up-Sifted_example =
    sift_up-Sifted 4 3 {t = 10} {w = three_running 2 3} {q = queue_of_three} (omega arith) refl
      (record {
        inside = omega arith;
        below = omega arith;
        timer = record { ne_null = omega arith; holds = refl };
        others = filled_three 2 3;
        order = order_four;
      })

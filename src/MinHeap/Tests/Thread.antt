-- ===== src/MinHeap/Tests/Thread.antt =====
-- `ti_pop` and the rounds of the timer thread on three timers.
use simple_timer.Prelude.{ℕ, ◌<◌, ◌≤◌, ◌≡◌, refl, inr, true, false, some, [], ◌∷◌, arith}
use simple_timer.Prelude.Arrays.{get_or}
use simple_timer.Machine.{ok, fault}
use simple_timer.Machine.Ends.{Ends}
use simple_timer.Api.{null, timer_true, less, gte, Timespec}
use simple_timer.MinHeap.State.{call}
use simple_timer.MinHeap.Queue.{pop}
use simple_timer.MinHeap.SiftDown.{SameBut}
use simple_timer.MinHeap.Pop.{Popping, popped, closed_up, pop_total, pop-root, pop-stale_root}
use simple_timer.MinHeap.Worker.{Round, expire}
use simple_timer.MinHeap.Fire.{expire-overdue, expire-use_after_free}
use simple_timer.MinHeap.Tests.{
  three_timers, three_running, queue_of_three, three_running-IsValid, at_second,
}

three_running-Popping : (a b : ℕ) → 1 ≤ a → 1 ≤ b → Popping (three_running a b) queue_of_three 2 1
three_running-Popping a b p q = record {
  given = omega arith;
  started = omega arith;
  count = refl;
  valid = three_running-IsValid a b p q;
}

pop_total_example :
    Ends
      (λ b w'.
        (b ≡ timer_true)
        × (i : ℕ) × (i ≤ 2)
        × (w' ≡ popped (three_running 2 3) queue_of_three 2 i w'.timers)
        × SameBut w'.timers (three_timers 2 3))
      (pop 1 (three_running 2 3))
pop_total_example = pop_total (three_running-Popping 2 3 (omega arith) (omega arith))

last_earlier : less (at_second 2) (at_second 3) ≡ true
unfolding less
last_earlier = refl

pop-root_example :
    pop 1 (three_running 3 2)
    ≡ ok timer_true (popped (three_running 3 2) queue_of_three 2 0 (three_timers 3 2))
unfolding get_or
pop-root_example =
    pop-root (three_running-Popping 3 2 (omega arith) (omega arith)) (inr last_earlier)

last_later : less (at_second 3) (at_second 2) ≡ false
unfolding less
last_later = refl

pop-stale_root_example :
    Ends
      (λ b w'.
        (b ≡ timer_true)
        × (i : ℕ) × (0 < i)
        × (i ≤ 2)
        × (w' ≡ popped (three_running 2 3) queue_of_three 2 i w'.timers)
        × SameBut w'.timers (three_timers 2 3)
        × (get_or null (closed_up queue_of_three 2 i) 0 ≡ get_or null queue_of_three 0))
      (pop 1 (three_running 2 3))
unfolding get_or
pop-stale_root_example =
    pop-stale_root (three_running-Popping 2 3 (omega arith) (omega arith)) (omega arith) last_later

-- The clock works, and other threads do nothing.
abbrev quiet_round : Round
quiet_round = record {
  now = some (at_second 0);
  created = true;
  again = some (at_second 0);
  ticks = some 1;
  others = λ w. w;
}

first_overdue : less (at_second 1) (at_second 9) ≡ true
unfolding less
first_overdue = refl

expire-overdue_example :
    expire quiet_round (at_second 9) 1 (three_running 2 3) ≡ ok timer_true (three_running 2 3)
unfolding get_or
expire-overdue_example =
    expire-overdue quiet_round (at_second 9) 1 {w = three_running 2 3}
      (three_running-IsValid 2 3 (omega arith) (omega arith)) (omega arith) refl first_overdue

first_not_due : gte (at_second 1) (at_second 0) ≡ true
unfolding gte
first_not_due = refl

expire-use_after_free_example :
    Ends
      (λ b w'.
        (b ≡ timer_true)
        × (w'.events ≡ call 7 8 ∷ [])
        × ((r' : Round) (now' : Timespec) → expire r' now' 1 w' ≡ fault))
      (expire quiet_round (at_second 0) 1 (three_running 2 3))
unfolding get_or
expire-use_after_free_example =
    expire-use_after_free quiet_round (at_second 0)
      (three_running-Popping 2 3 (omega arith) (omega arith))
      (record {
        kind = refl;
        run_type = refl;
        no_param = refl;
        many = omega arith;
        down = last_later;
      })
      refl first_not_due

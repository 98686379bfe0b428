-- ===== src/Wheel/Tests/Life.antt =====
-- Calls on a wheel before and after `ti_init`, and of `ti_add`.
use simple_timer.Prelude.{
  ap, ◌==◌, ◌^◌, Bool-cases, if◌then◌else◌, eqb→eq, inl, inr, ℕ, ◌<◌, ◌≡◌, ◌≢◌, ◌↔◌, refl, true,
  some, none, [], ◌∷◌, arith,
}
use simple_timer.Prelude.Arrays.{get_elem?}
use simple_timer.Machine.{ok, fault}
use simple_timer.Api.{Timer, timer_true, unblock, repeat, direct}
use simple_timer.Wheel.State.{World}
use simple_timer.Wheel.Lifecycle.{
  TimerManagerConf, check_timer_manager_conf, blank, InitEnv, init, StartEnv, start,
}
use simple_timer.Wheel.Timers.{AddEnv, check_timer}
use simple_timer.Wheel.Worker.{retire}
use simple_timer.Wheel.Init.{CanInit, IsReady, init-overrun, init-IsReady}
use simple_timer.Wheel.Starting.{start-double_unlock}
use simple_timer.Wheel.Checks.{IsLegal, check_timer-IsLegal}
use simple_timer.Wheel.Deletion.{del}
use simple_timer.Wheel.Deleting.{Counts, del-fault}
use simple_timer.Wheel.Retire.{retire-ne-ok}
use simple_timer.Wheel.Tests.{
  four_slots, in_slot_1, two_timers, two_timers-IsWheel, repeating, once,
}

abbrev pub blank_world : World
blank_world = record two_timers { man = blank; links = λ p. none }

abbrev pub conf_of : ℕ → TimerManagerConf
conf_of n = record { time_slot = 10; slot_num = 4; timer_max_num = n }

abbrev pub memory_given : InitEnv
memory_given = record { fd = some 5; base = 100; bitmap = some λ i. 170 }

pub conf_of_sound : (n : ℕ) → 0 < n → check_timer_manager_conf (conf_of n) ≡ true
unfolding check_timer_manager_conf
conf_of_sound n pos = ground arith

abbrev pub can_init : (n : ℕ) → 0 < n → n < 2 ^ 31 → CanInit memory_given 8 (conf_of n) blank_world
can_init n pos small = record {
  here = omega arith;
  idle = refl;
  first = omega arith;
  sound = conf_of_sound n pos;
  small = omega arith;
  fd = 5;
  opened = refl;
  array = omega arith;
  bytes = λ i. 170;
  block = refl;
}

init-overrun_example : init memory_given 8 (some (conf_of 8)) blank_world ≡ fault
init-overrun_example =
    init-overrun memory_given 8 (conf_of 8) blank_world (can_init 8 (omega arith) (omega arith))
      (omega arith)

init-IsReady_example :
    (w' : World) × (init memory_given 8 (some (conf_of 30)) blank_world ≡ ok timer_true w')
    × IsReady memory_given (conf_of 30) (λ i. 170) blank w'
init-IsReady_example =
    init-IsReady memory_given 8 (conf_of 30) blank_world (can_init 30 (omega arith) (omega arith))
      (omega arith)

-- A manager that has been stopped, and a thread that is created.
abbrev stopped : World
stopped = record two_timers { man = record (two_timers.man) { start_flag = 0 } }

abbrev thread_given : StartEnv
thread_given = record { created = some 9; joined = λ w. w }

start-double_unlock_example : start thread_given 8 unblock stopped ≡ fault
start-double_unlock_example =
    start-double_unlock thread_given 8 unblock stopped 9 (omega arith) refl (omega arith) refl
      (λ v idle. idle)

-- The first timer has a parameter of two bytes, and the second one a parameter of one byte.
abbrev two_params : World
two_params = record two_timers {
  timers = λ p.
      if p == 1
      then some (record repeating { param = 61; param_len = 2 })
      else if p == 2
      then some (record once { param = 62; param_len = 1 })
      else none;
  params = λ p. if p == 61 then some (4 ∷ 5 ∷ []) else if p == 62 then some (6 ∷ []) else none;
}

retire-ne-ok_example : retire 9 1 2 1 two_timers ≢ ok tt two_timers
retire-ne-ok_example = retire-ne-ok 9 1 2 1 two_timers two_timers

abbrev pub plain_timer : Timer
plain_timer = record {
  kind = repeat;
  run_type = direct;
  interval = 50;
  cb = 7;
  param = none;
  param_len = 0;
}

abbrev pub memory_at_3 : AddEnv
memory_at_3 = record { node = 3; block = 60; tree_node = 70; fuel = 9 }

check_timer-IsLegal_example :
    (check_timer two_timers.man plain_timer ≡ timer_true) ↔ IsLegal two_timers.man plain_timer
check_timer-IsLegal_example = check_timer-IsLegal two_timers.man plain_timer

pub plain_timer-IsLegal : IsLegal two_timers.man plain_timer
plain_timer-IsLegal = record {
  slow = omega arith;
  called = omega arith;
  conform = (λ h. ground arith, λ h. absurd (h refl));
}

two_timers-Counts : Counts two_timers four_slots in_slot_1
two_timers-Counts = record {
  some_counted = λ j l full. elim (Bool-cases (j == 1)) [
    | inl same ↦ (
      record { slot_id = 1; timer_cnt = 2 },
      ap (get_elem? four_slots.nodes) (eqb→eq j 1 same),
      omega arith,
    )
    | inr other ↦ absurd (full (rw other refl))
  ];
  plain = λ j l. ground arith;
}

del-fault_example : del 2 8 0 two_timers ≡ fault
del-fault_example =
    del-fault 0 8 two_timers four_slots in_slot_1 1 (omega arith) refl two_timers-IsWheel
      two_timers-Counts (omega arith) (λ e. cc)

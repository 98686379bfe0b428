-- ===== src/Wheel/Tests.antt =====
-- Runs on a wheel of four slots of ten milliseconds.
pub mod Life
mod Adding
mod Removing
use simple_timer.Prelude.{
  ℕ, zero, suc, ◌+◌, ◌*◌, ◌/◌, ◌<◌, ◌≡◌, refl, inl, inr, true, none, some, [], ◌∷◌, arith, ◌==◌,
  if◌then◌else◌, Bool-cases, ◌%◌,
}
use simple_timer.Machine.{ok}
use simple_timer.Machine.Locks.{RwLock}
use simple_timer.Api.{Ptr, null, timer_true, single_shot, repeat, direct}
use simple_timer.LinkedList.{Memory}
use simple_timer.LinkedList.Ring.{has, IsRing}
use simple_timer.RbTree.{Color, Store}
use simple_timer.RbTree.Shape.{Entry, cell}
use simple_timer.Wheel.State.{write, live, TimerInternal, Slots, World}
use simple_timer.Wheel.Timers.{del_and_add, index_of, round_of}
use simple_timer.Wheel.Due.{ahead, Fits}
use simple_timer.Wheel.Turning.{at_slot, turn, turn-reaches}
use simple_timer.Wheel.Enlist.{IsTimer}
use simple_timer.Wheel.Abstract.{Rota, IsWheel}
use simple_timer.Wheel.Worker.{Round, round}
use simple_timer.Wheel.Freeing.{Timers}
use simple_timer.Wheel.Place.{IsWheel-value}
use simple_timer.Wheel.Waiting.{lowered, Waiting}
use simple_timer.Wheel.Quiet.{round-Waiting}
use simple_timer.Wheel.Move.{Moved, CanMove, del_and_add-Moved}
use simple_timer.Wheel.Heads.{alone}

-- A timer for every 50 milliseconds, and one for 30 milliseconds from now.
abbrev pub repeating : TimerInternal
repeating = record {
  kind = repeat;
  run_type = direct;
  interval = 50;
  cb = 7;
  param = 0;
  param_len = 0;
  id = 1;
  round = 0;
}

abbrev pub once : TimerInternal
once = record {
  kind = single_shot;
  run_type = direct;
  interval = 30;
  cb = 7;
  param = 0;
  param_len = 0;
  id = 2;
  round = 0;
}

abbrev pub four_slots : Slots
four_slots = record {
  base = 100;
  nodes =
      record { slot_id = 0; timer_cnt = 0 }
      ∷ record { slot_id = 1; timer_cnt = 2 }
      ∷ record { slot_id = 2; timer_cnt = 0 }
      ∷ record { slot_id = 3; timer_cnt = 0 }
      ∷ [];
}

abbrev pub two_linked : Memory
two_linked p =
    if p == 101
    then some (record { next = 1; prev = 2 })
    else if p == 1
    then some (record { next = 2; prev = 101 })
    else if p == 2
    then some (record { next = 101; prev = 1 })
    else if p == 100
    then some (alone 100)
    else if p == 102
    then some (alone 102)
    else if p == 103
    then some (alone 103)
    else none

-- The tree of the two timers: the node of the id 1 and, to its right, that of the id 2.
abbrev pub id_1 : Entry
id_1 = record { at = 71; key = 1; datum = 1 }

abbrev pub id_2 : Entry
id_2 = record { at = 72; key = 2; datum = 2 }

abbrev pub two_planted : Store
two_planted p =
    if p == 71
    then some (cell Color.black id_1 null 72 null)
    else if p == 72
    then some (cell Color.red id_2 null null 71)
    else none

-- Slot 1 is due, and the two timers are in it.
abbrev pub two_timers : World
two_timers = record {
  man = record {
    time_slot = 10;
    slot_num = 4;
    timer_max_num = 30;
    cur_timer_num = 2;
    cur_slot = 1;
    pid = 9;
    timer_fd_min_free = 3;
    init_flag = 1;
    start_flag = 1;
    enable_flag = 1;
    lock = RwLock.free;
    timerfd = some 5;
    timer_fd_bitmap = live (192 ∷ 0 ∷ 0 ∷ 0 ∷ []);
    slots = live four_slots;
    rb_root = 71;
  };
  timers = λ p. if p == 1 then some repeating else if p == 2 then some once else none;
  params = λ p. none;
  links = two_linked;
  tree = two_planted;
  events = [];
}

abbrev pub in_slot_1 : Rota
in_slot_1 j = if j == 1 then 1 ∷ 2 ∷ [] else []

two_timers-IsRing : (j : ℕ) → j < 4 → IsRing two_linked (100 + j) (in_slot_1 j)
two_timers-IsRing zero l = record {
  chain = (refl, refl);
  distinct = (refl, tt);
  live = λ a h. ground arith;
}
two_timers-IsRing (suc zero) l = record {
  chain = (refl, refl, (refl, refl, (refl, refl)));
  distinct = (refl, (refl, (refl, tt)));
  live = λ a h. ground arith;
}
two_timers-IsRing (suc (suc zero)) l = record {
  chain = (refl, refl);
  distinct = (refl, tt);
  live = λ a h. ground arith;
}
two_timers-IsRing (suc (suc (suc zero))) l = record {
  chain = (refl, refl);
  distinct = (refl, tt);
  live = λ a h. ground arith;
}
two_timers-IsRing (suc (suc (suc (suc j)))) l = absurd (omega arith)

pub two_timers-IsWheel : IsWheel two_timers four_slots in_slot_1
two_timers-IsWheel = record {
  held = refl;
  size = refl;
  ring = two_timers-IsRing;
  apart = λ i j li lj ne a h. ground arith;
  known = λ j l a h. elim (Bool-cases (a == 1)) [
    | inl same ↦ record { place = ground arith; value = repeating; stands = ground arith }
    | inr other ↦ record { place = ground arith; value = once; stands = ground arith }
  ];
}

can_move : CanMove 8 two_timers
can_move = record { here = omega arith; idle = refl; initialised = omega arith; room = omega arith }

in_range : Fits two_timers 50
in_range = record {
  slots = omega arith;
  period = omega arith;
  inside = omega arith;
  turn = omega arith;
  reach = omega arith;
}

del_and_add-Moved_example :
    (w' : World) × (del_and_add 8 1 1 two_timers ≡ ok timer_true w')
    × Moved two_timers four_slots in_slot_1 1 1 repeating (2 ∷ []) w'
del_and_add-Moved_example =
    del_and_add-Moved 8 two_timers four_slots in_slot_1 1 1 repeating [] (2 ∷ []) can_move
      two_timers-IsWheel (omega arith) refl (omega arith) refl in_range

-- The same wheel when both timers have rounds left.
abbrev repeating_later : TimerInternal
repeating_later = record repeating { round = 2 }

abbrev once_later : TimerInternal
once_later = record once { round = 1 }

abbrev rounds_left : World
rounds_left = record two_timers {
  timers = write (write two_timers.timers 1 (some repeating_later)) 2 (some once_later);
}

repeating-IsTimer : IsTimer two_timers 1
repeating-IsTimer = record { place = omega arith; value = repeating; stands = refl }

abbrev first_later : World
first_later = record two_timers { timers = write two_timers.timers 1 (some repeating_later) }

once-IsTimer : IsTimer first_later 2
once-IsTimer = record { place = omega arith; value = once; stands = refl }

rounds_left-IsWheel : IsWheel rounds_left four_slots in_slot_1
rounds_left-IsWheel =
    IsWheel-value first_later four_slots in_slot_1
      (IsWheel-value two_timers four_slots in_slot_1 two_timers-IsWheel 1 repeating-IsTimer
        repeating_later)
      2 once-IsTimer once_later

rounds_left-Waiting : Waiting rounds_left (1 ∷ 2 ∷ [])
rounds_left-Waiting a h = elim (Bool-cases (a == 1)) [
  | inl same ↦
      (record { place = ground arith; value = repeating_later; stands = ground arith }, omega arith)
  | inr other ↦
      (record { place = ground arith; value = once_later; stands = ground arith }, omega arith)
]

abbrev one_tick : Round
one_tick = record { created = true; ticks = some 1; others = λ w. w; fuel = 3 }

round-Waiting_example :
    (timers : Timers) × (round one_tick 0 8 rounds_left
      ≡ ok (some 0) (at_slot (record rounds_left { timers = timers }) (2 % 4)))
    × ((a : Ptr)
        → timers a
          ≡ (if has a (1 ∷ 2 ∷ []) then lowered (rounds_left.timers a) else rounds_left.timers a))
round-Waiting_example =
    round-Waiting one_tick 0 1 8 rounds_left four_slots in_slot_1 rounds_left-IsWheel
      (record { inside = omega arith; small = omega arith }) rounds_left-Waiting (omega arith) refl
      (omega arith) (λ v. refl)

turn-reaches_example :
    (turn (ahead 4 1 0) two_timers ≡ ok tt (at_slot two_timers 0)) × (ahead 4 1 0 < 4)
turn-reaches_example =
    turn-reaches 0 two_timers (record { inside = omega arith; small = omega arith }) (omega arith)

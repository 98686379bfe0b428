-- ===== src/Wheel/Quiet.antt =====
-- A round of the timer thread in which no timer is due.
use simple_timer.Prelude.{ℕ, ◌+◌, ◌%◌, ◌<◌, ◌≤◌, ◌≡◌, false, ap, some, arith, if◌then◌else◌, ltb}
use simple_timer.Prelude.Arrays.{length, get_elem?-some}
use simple_timer.Machine.{Run, ok, pure, and_then}
use simple_timer.Api.{Ptr}
use simple_timer.LinkedList.Ring.{has}
use simple_timer.Wheel.State.{Slots, World}
use simple_timer.Wheel.Worker.{Round, wait_tick, round}
use simple_timer.Wheel.Turning.{IsTurning, at_slot, advance-step}
use simple_timer.Wheel.Heads.{head_of-ok}
use simple_timer.Wheel.Abstract.{Rota, IsWheel}
use simple_timer.Wheel.Freeing.{Timers}
use simple_timer.Wheel.Waiting.{lowered, Waiting, scan-Waiting}

wait_tick-in_time :
    (r : Round) (replay n : ℕ) (w : World)
    → r.ticks ≡ some n
    → n ≤ 1
    → wait_tick r replay w ≡ ok (some replay) (r.others w)
unfolding wait_tick
wait_tick-in_time r replay n w e late =
    let in_time : ltb 1 n ≡ false = ground arith in rw (e, in_time)

-- On a wheel with the hand on a slot where every timer has rounds left, on fuel for more steps than
-- the slot has timers, if at most one tick has passed and no other thread acts, a round of the
-- timer thread ends normally: the rounds of the slot's timers have fallen by one, the hand stands
-- on the next slot, and nothing else has changed.
pub round-Waiting :
    (r : Round) (replay n : ℕ) (this : Ptr) (w : World) (s : Slots) (on : Rota)
    → IsWheel w s on
    → IsTurning w
    → Waiting w (on w.man.cur_slot)
    → length (on w.man.cur_slot) < r.fuel
    → r.ticks ≡ some n
    → n ≤ 1
    → ((v : World) → r.others v ≡ v)
    → (timers : Timers) × (round r replay this w
        ≡ ok
            (some replay)
            (at_slot (record w { timers = timers }) ((w.man.cur_slot + 1) % w.man.slot_num)))
      × ((a : Ptr)
          → timers a ≡ (if has a (on w.man.cur_slot) then lowered (w.timers a) else w.timers a))
unfolding round
round-Waiting r replay n this w s on v hand waits enough ticked late alone =
    let c = w.man.cur_slot in
    let (node, there) = get_elem?-some s.nodes c (omega (arith, v.size, hand.inside)) in
    let (timers, run, each) =
      scan-Waiting r r.fuel this (s.base + c) c (on c) w (v.ring c hand.inside) waits enough in
    let w1 : World = record w { timers = timers } in
    let hand1 : IsTurning w1 = record { inside = hand.inside; small = hand.small } in
    (
      timers,
      rw
          (
            head_of-ok w s v.held c node there,
            run,
            wait_tick-in_time r replay n w1 ticked late,
            alone w1,
          )
          (ap (λ (u : Run World (Unit {0})). and_then u λ _. pure (some replay))
            (advance-step w1 hand1)),
      each,
    )

-- ===== src/MinHeap/Worker.antt =====
-- `entry` of src/minheap_timer.c, the body of the timer thread: a round fires the first timer,
-- takes it out of the heap or puts it back, and waits for the next tick of the timer descriptor.
use simple_timer.Prelude.{ℕ, ◌+◌, Bool, Option, none, some, List, [], ◌∷◌, ◌==◌, if◌then◌else◌, ltb}
use simple_timer.Machine.{out_of_fuel, pure, ◌>>=◌, ◌>>◌}
use simple_timer.Api.{
  Ptr, null, TimerType, TimerRunType, TimerBool, timer_true, timer_false, single_shot, repeat,
  direct, signal, thread, Timespec, gte,
}
use simple_timer.MinHeap.State.{
  World, Op, raise_alarm, spawn, call, manager, modify, emit, lock_queue, unlock_queue, load_slot,
  load_timer, free_timer, free_param,
}
use simple_timer.MinHeap.Queue.{repush, pop}

-- What the system gives one round: the clock, whether `pthread_create` succeeds, the clock that
-- `repush` reads, the count of ticks that `read` returns, and what the other threads do to the
-- shared state while `read` waits.
pub record Round : Type 0 where
  pub now : Option Timespec
  pub created : Bool
  pub again : Option Timespec
  pub ticks : Option ℕ
  pub others : World → World

-- The first `switch`, on `run_type`. A callback is an event: what it does is not part of the state.
unfoldable pub run_timer : TimerRunType → Bool → (cb param : Ptr) → Op (Unit {0})
run_timer signal created cb param = emit raise_alarm
run_timer thread created cb param = if created then emit (spawn cb param) else pure tt
run_timer direct created cb param = emit (call cb param)

-- `free(temp->param)` if there are parameters, and `free(temp)`.
unfoldable pub release_timer : Ptr → Op (Unit {0})
release_timer temp = do
  x ← load_timer temp
  if x.param_len == 0 then pure tt else free_param x.param
  free_timer temp

-- The cases of the second `switch`, on `type`, behind their `ti_pop`.
unfoldable pub settle : TimerType → Option Timespec → Ptr → Ptr → Op TimerBool
unfolding release_timer
settle repeat again this temp = repush again this temp
settle single_shot again this temp = do release_timer temp; pure timer_true

-- The second `switch`. `timer_false` is the jump to MH_END.
unfoldable pub requeue : Option Timespec → Ptr → Ptr → Op TimerBool
unfolding settle
requeue again this temp = do
  x ← load_timer temp
  popped ← pop this
  elim popped [ timer_false ↦ pure timer_false | timer_true ↦ settle x.kind again this temp ]

-- What a round does under `mh_lock`.
unfoldable pub expire : Round → Timespec → Ptr → Op TimerBool
unfolding run_timer requeue
expire r now this = do
  lock_queue
  temp ← load_slot 0
  done ← if temp == null then pure timer_true else do
    x ← load_timer temp
    if gte x.expiretime now
        then (do run_timer x.run_type r.created x.cb x.param; requeue r.again this temp)
        else pure timer_true
  unlock_queue
  pure done

-- `read`, and the count of late ticks: the fifth ends the thread. `none` is the jump to MH_END.
unfoldable pub wait_tick : Round → ℕ → Op (Option ℕ)
wait_tick r replay w = elim r.ticks [
  | none ↦ pure none (r.others w)
  | some n ↦
      if ltb 1 n
      then (if replay + 1 == 5
          then pure none (r.others w)
          else pure (some (replay + 1)) (r.others w))
      else pure (some replay) (r.others w)
]

-- The body of the loop.
unfoldable pub round : Round → ℕ → Ptr → Op (Option ℕ)
unfolding expire wait_tick
round r replay this = elim r.now [
  | none ↦ pure none
  | some now ↦ (do
    done ← expire r now this
    elim done [ timer_false ↦ pure none | timer_true ↦ wait_tick r replay ])
]

unfoldable pub finish : Op (Unit {0})
finish = modify λ m. record m { pid = 0; start_flag = 0 }

-- The loop, for as many rounds as the system is given for. A thread that is still in its loop after
-- them is out of fuel.
unfoldable pub entry_loop : List Round → ℕ → Ptr → Op (Unit {0})
unfolding round finish
entry_loop [] replay this = do m ← manager; if m.start_flag == 0 then finish else λ _. out_of_fuel
entry_loop (r ∷ rs) replay this = do
  m ← manager
  if m.start_flag == 0 then finish else do
    next ← round r replay this
    elim next [ none ↦ finish | some n ↦ entry_loop rs n this ]

-- `armed` is whether `timerfd_settime` succeeds.
unfoldable pub entry : Bool → List Round → Ptr → Op (Unit {0})
unfolding entry_loop
entry armed rs this =
    if this == null then pure tt else if armed then entry_loop rs 0 this else finish

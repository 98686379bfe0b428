-- ===== src/Wheel/Worker.antt =====
-- The timer thread of src/timer.c: a pass over the slot that is due, a wait for the next tick, and the
-- step to the next slot.
use simple_timer.Prelude.{
  ℕ, zero, suc, ◌+◌, ◌-◌, ◌*◌, ◌/◌, ◌%◌, Bool, Option, none, some, List, [], ◌∷◌, ◌==◌,
  if◌then◌else◌, ltb,
}
use simple_timer.Machine.{out_of_fuel, pure, ◌>>=◌, ◌>>◌}
use simple_timer.Api.{
  Ptr, null, TimerType, single_shot, repeat, TimerRunType, direct, signal, thread, Timespec,
}
use simple_timer.LinkedList.{load, list_del, list_is_last}
use simple_timer.RbTree.Erase.{erase}
use simple_timer.IdPool.{timer_id_push}
use simple_timer.Wheel.State.{
  inc, dec, World, Op, raise_alarm, spawn, call, arm, manager, modify, emit, rdlock, unlock,
  on_links, on_tree, on_pool, head_of, change_count, load_timer, store_timer, release_timer,
}
use simple_timer.Wheel.Timers.{del_and_add}

-- The period of the descriptor: `time_slot` milliseconds.
unfoldable pub increment : ℕ → Timespec
increment time_slot = record { tv_sec = time_slot / 1000; tv_nsec = time_slot % 1000 * 1000000 }

-- What the system gives one round: whether `pthread_create` succeeds, the count of ticks that `read`
-- returns, what other threads do to the shared state while `read` waits, and the fuel of the pass.
pub record Round : Type 0 where
  pub created : Bool
  pub ticks : Option ℕ
  pub others : World → World
  pub fuel : ℕ

-- The first `switch`, on `run_type`. A callback is an event: what it does is not part of the state.
unfoldable pub run_timer : TimerRunType → Bool → (cb param : Ptr) → Op (Unit {0})
run_timer signal created cb param = emit raise_alarm
run_timer thread created cb param = if created then emit (spawn cb param) else pure tt
run_timer direct created cb param = emit (call cb param)

-- The case of a one-shot timer: it is freed, and then its id is read.
unfoldable pub retire : (fuel : ℕ) (tmp temp : Ptr) (slot : ℕ) → Op (Unit {0})
unfolding load_timer release_timer on_pool change_count rdlock unlock
retire fuel tmp temp slot = do
  rdlock
  l ← on_links (load tmp)
  on_links (list_del l.next)
  x ← load_timer temp
  m ← manager
  top ← on_tree (erase fuel x.id m.rb_root)
  modify λ m. record m { rb_root = top }
  release_timer temp
  x ← load_timer temp
  on_pool (timer_id_push x.id)
  change_count dec slot
  unlock

-- The second `switch`, on `type`. The result of `del_and_add` is not looked at.
unfoldable pub reschedule :
    (fuel : ℕ) → TimerType → (this tmp temp : Ptr) (slot : ℕ) → Op (Unit {0})
unfolding retire del_and_add
reschedule fuel repeat this tmp temp slot = do done ← del_and_add this temp slot; pure tt
reschedule fuel single_shot this tmp temp slot = retire fuel tmp temp slot

-- The body of the inner loop, at the timer behind `tmp`.
unfoldable pub visit : Round → (this tmp : Ptr) (slot : ℕ) → Op (Unit {0})
unfolding load_timer store_timer run_timer reschedule
visit r this tmp slot = do
  l ← on_links (load tmp)
  temp ← pure l.next
  x ← load_timer temp
  if x.round == 0
      then (do
        run_timer x.run_type r.created x.cb x.param
        reschedule r.fuel x.kind this tmp temp slot)
      else store_timer temp (record x { round = x.round - 1 })

-- The inner loop, on fuel.
unfoldable pub scan : Round → (fuel : ℕ) (this header tmp : Ptr) (slot : ℕ) → Op (Unit {0})
unfolding visit
scan r zero this header tmp slot = λ _. out_of_fuel
scan r (suc k) this header tmp slot = do
  last ← on_links (list_is_last tmp header)
  if last
      then pure tt
      else do visit r this tmp slot; l ← on_links (load tmp); scan r k this header l.next slot

-- `read`, and the count of late ticks: the fifth ends the thread. `none` is the jump to END.
unfoldable pub wait_tick : Round → ℕ → Op (Option ℕ)
wait_tick r replay w = elim r.ticks [
  | none ↦ pure none (r.others w)
  | some n ↦
      if ltb 1 n
      then (if replay + 1 == 5
          then pure none (r.others w)
          else pure (some (replay + 1)) (r.others w))
      else pure (some replay) (r.others w)
]

-- The step to the next slot.
unfoldable pub advance : Op (Unit {0})
advance = modify λ m.
    if m.cur_slot == dec m.slot_num
    then record m { cur_slot = 0 }
    else record m { cur_slot = inc m.cur_slot }

-- The body of the outer loop.
unfoldable pub round : Round → ℕ → Ptr → Op (Option ℕ)
unfolding scan wait_tick advance head_of
round r replay this = do
  m ← manager
  header ← head_of m.cur_slot
  scan r r.fuel this header header m.cur_slot
  next ← wait_tick r replay
  elim next [ none ↦ pure none | some n ↦ (do advance; pure (some n)) ]

unfoldable pub finish : Op (Unit {0})
finish = modify λ m. record m { pid = 0; start_flag = 0 }

-- The loop, for as many rounds as the system is given for. A thread that is still in its loop after
-- them is out of fuel.
unfoldable pub entry_loop : List Round → ℕ → Ptr → Op (Unit {0})
unfolding round finish
entry_loop [] replay this = do m ← manager; if m.start_flag == 0 then finish else λ _. out_of_fuel
entry_loop (r ∷ rs) replay this = do
  m ← manager
  if m.start_flag == 0 then finish else do
    next ← round r replay this
    elim next [ none ↦ finish | some n ↦ entry_loop rs n this ]

-- `armed` is whether `timerfd_settime` succeeds.
unfoldable pub entry : Bool → List Round → Ptr → Op (Unit {0})
unfolding entry_loop increment
entry armed rs this = if this == null then pure tt else do
  m ← manager
  if armed then (do emit (arm (increment m.time_slot)); entry_loop rs 0 this) else finish

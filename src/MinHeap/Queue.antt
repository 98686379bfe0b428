-- ===== src/MinHeap/Queue.antt =====
-- The heap operations of src/minheap_timer.c: `ti_push`, `repush` and `ti_pop`.
-- What `malloc`, `clock_gettime` and the caller's buffer give is an argument. A loop has as fuel one
-- more than the number of slots that its index can still pass, since the index moves strictly.
use simple_timer.Prelude.{
  ℕ, zero, suc, ◌+◌, ◌-◌, ◌*◌, ◌/◌, Option, none, some, List, ◌==◌, if◌then◌else◌, ltb, leb,
}
use simple_timer.Prelude.Arrays.{length, take}
use simple_timer.Machine.{ok, fault, out_of_fuel, pure, ◌>>=◌, ◌>>◌}
use simple_timer.Api.{Ptr, null, Timer, TimerBool, timer_true, timer_false, Timespec, less, great}
use simple_timer.MinHeap.State.{
  MhTimer, Op, write, manager, modify, rdlock, unlock, lock_queue, unlock_queue, load_slot,
  store_slot, load_timer, set_expiretime, free_timer,
}

-- What the system gives one call of `ti_push`: the two results of `malloc` and the clock.
pub record PushEnv : Type 0 where
  pub node : Ptr
  pub block : Ptr
  pub now : Option Timespec

abbrev pub parent : ℕ → ℕ
parent s = (s - 1) / 2

-- `expiretime.tv_sec += interval`: the interval counts seconds.
abbrev pub later : Timespec → ℕ → Timespec
later now interval = record now { tv_sec = now.tv_sec + interval }

-- The loop of `ti_push` and of `repush`, and the write `queue[s] = t` behind it.
unfoldable pub sift_up : ℕ → Ptr → ℕ → Op (Unit {0})
sift_up zero t s = λ _. out_of_fuel
sift_up (suc k) t s = if s == 0 then store_slot s t else do
  temp ← load_slot (parent s)
  x ← load_timer temp
  y ← load_timer t
  if less x.expiretime y.expiretime
      then store_slot s t
      else (do store_slot s temp; sift_up k t (parent s))

-- The part of `ti_push` that runs under `mh_lock`.
unfoldable pub push_locked : Ptr → Op TimerBool
unfolding sift_up
push_locked t = do
  lock_queue
  m ← manager
  if leb m.max_timer_num m.cur_timer_num then (do unlock_queue; unlock; pure timer_false) else (do
    modify λ m. record m { cur_timer_num = m.cur_timer_num + 1 }
    sift_up (m.cur_timer_num + 1) t m.cur_timer_num
    unlock_queue
    unlock
    pure timer_true)

-- `malloc(t->param_len)` and `memcpy` of as many bytes from the caller's buffer.
unfoldable pub copy_param : Ptr → Timer → Op (Unit {0})
copy_param b timer w =
    if timer.param_len == 0
    then ok tt (record w { params = write w.params b (some List.[]) })
    else elim timer.param [
      | none ↦ fault
      | some bytes ↦
          if ltb (length bytes) timer.param_len
          then fault
          else ok tt (record w { params = write w.params b (some (take timer.param_len bytes)) })
    ]

-- The block of `malloc` with the caller's fields. The expiry time is not yet set.
abbrev pub copied : Timer → Ptr → MhTimer
copied timer b = record {
  kind = timer.kind;
  run_type = timer.run_type;
  interval = timer.interval;
  cb = timer.cb;
  param = b;
  param_len = timer.param_len;
  expiretime = record { tv_sec = 0; tv_nsec = 0 };
}

-- A successful `malloc`: the block is live.
abbrev pub allocate : Ptr → MhTimer → Op (Unit {0})
allocate t x w = ok tt (record w { timers = write w.timers t (some x) })

-- The part of `ti_push` that makes the new timer.
unfoldable pub push_alloc : PushEnv → Timer → Op TimerBool
unfolding push_locked copy_param
push_alloc env timer = if env.node == null then (do unlock; pure timer_false) else do
  allocate env.node (copied timer env.block)
  if env.block == null then (do unlock; free_timer env.node; pure timer_false) else (do
    copy_param env.block timer
    elim env.now [
      | none ↦ (do unlock; free_timer env.node; pure timer_false)
      | some now ↦ (do set_expiretime env.node (later now timer.interval); push_locked env.node)
    ])

unfoldable pub push : PushEnv → Ptr → Timer → Op TimerBool
unfolding push_alloc
push env this timer = if this == null then pure timer_false else do
  rdlock
  m ← manager
  if m.init_flag == 0
      then (do unlock; pure timer_false)
      else if m.enable_flag == 0
      then (do unlock; pure timer_true)
      else if timer.interval == 0
      then (do unlock; pure timer_false)
      else push_alloc env timer

-- `cur_timer_num` is counted up before the clock is read.
unfoldable pub repush : Option Timespec → Ptr → Ptr → Op TimerBool
unfolding sift_up
repush clock this timer = if this == null then pure timer_false else do
  m ← manager
  if m.start_flag == 0 then pure timer_false else do
    modify λ m. record m { cur_timer_num = m.cur_timer_num + 1 }
    elim clock [
      | none ↦ pure timer_false
      | some now ↦ (do
        x ← load_timer timer
        set_expiretime timer (later now x.interval)
        sift_up (m.cur_timer_num + 1) timer m.cur_timer_num
        pure timer_true)
    ]

-- `right < s && great(temp->expiretime, queue[right]->expiretime)` picks the child to go down to.
unfoldable pub pick_child : ℕ → ℕ → Timespec → Op ℕ
pick_child s child e =
    if ltb (child + 1) s
    then (do
      r ← load_slot (child + 1)
      x ← load_timer r
      pure (if great e x.expiretime then child + 1 else child))
    else pure child

-- The loop of `ti_pop`: what it returns is the last `i`. It copies expiry times between the timers,
-- and compares the last timer with the left child, whichever child it picked.
unfoldable pub sift_down : ℕ → ℕ → ℕ → Op ℕ
unfolding pick_child
sift_down zero s i = λ _. out_of_fuel
sift_down (suc k) s i = if leb (s / 2) i then pure i else do
  temp ← load_slot (2 * i + 1)
  x ← load_timer temp
  child ← pick_child s (2 * i + 1) x.expiretime
  last ← load_slot s
  y ← load_timer last
  if less y.expiretime x.expiretime then pure i else do
    c ← load_slot child
    z ← load_timer c
    top ← load_slot i
    set_expiretime top z.expiretime
    sift_down k s child

-- With no timer, `s` is -1, the loop is skipped, and `queue[-1]` is out of bounds.
unfoldable pub pop : Ptr → Op TimerBool
unfolding sift_down
pop this = if this == null then pure timer_false else do
  m ← manager
  if m.start_flag == 0 then pure timer_false else if m.cur_timer_num == 0 then (λ _. fault) else do
    let s = m.cur_timer_num - 1
    modify λ m. record m { cur_timer_num = s }
    i ← sift_down (s + 1) s 0
    last ← load_slot s
    store_slot i last
    store_slot s null
    pure timer_true

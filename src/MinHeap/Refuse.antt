-- ===== src/MinHeap/Refuse.antt =====
-- The calls of `ti_push` that add nothing.
use mathlib.Core.Path.{fun_ext}
use simple_timer.Prelude.{
  ℕ, ◌≤◌, ◌≡◌, ◌≢◌, ◌⊎◌, false, inl, inr, Bool-cases, eqb→ne, Option, none, some, List, arith, ◌==◌,
  if◌then◌else◌, ne→eqb, le→leb,
}
use simple_timer.Prelude.Arrays.{take}
use simple_timer.Machine.{ok}
use simple_timer.Machine.Locks.{RwLock}
use simple_timer.Api.{Ptr, null, Timer, TimerBool, timer_true, timer_false, Timespec}
use simple_timer.MinHeap.State.{
  MhTimer, World, Manager, write, set_lock, rdlock, unlock, lock_queue, unlock_queue, load_timer,
  store_timer,
}
use simple_timer.MinHeap.Queue.{PushEnv, push, push_alloc, copied}
use simple_timer.MinHeap.Valid.{IsIdle}
use simple_timer.MinHeap.Memory.{Timers, free_timer-ok}
use simple_timer.MinHeap.Push.{
  Admits, bytes_of, heap_with_new, copy_param-ok, allocated, set_expiretime-new,
}

-- The checks of `ti_push`, in their order.
abbrev pub verdict : Manager → Timer → Option TimerBool
verdict m timer =
    if m.init_flag == 0
    then some timer_false
    else if m.enable_flag == 0
    then some timer_true
    else if timer.interval == 0
    then some timer_false
    else none

-- With no lock held, a call of `push` that a check refuses changes nothing and allocates nothing:
-- it reports failure for a manager that is not initialised and for the interval 0, and success for
-- a disabled manager.
pub push-verdict :
    (env : PushEnv) (this : Ptr) (timer : Timer) (w : World) (b : TimerBool)
    → this ≢ null
    → IsIdle w.man
    → verdict w.man timer ≡ some b
    → push env this timer w ≡ ok b w
unfolding push rdlock unlock
push-verdict env this timer w b given idle refused = ground arith

-- The caller's bytes, copied into the parameter block.
abbrev pub params_with_copy : World → PushEnv → Timer → Ptr → Option (List ℕ)
params_with_copy w env timer =
    write w.params env.block (some (take timer.param_len (bytes_of timer.param)))

Admits-lock :
    {w : World} {env : PushEnv} {timer : Timer} {l : RwLock}
    → Admits w env timer
    → Admits (set_lock w l) env timer
Admits-lock a = record {
  initialised = a.initialised;
  enabled = a.enabled;
  positive = a.positive;
  node_given = a.node_given;
  node_fresh = a.node_fresh;
  block_given = a.block_given;
  readable = a.readable;
}

write-none :
    (h : Timers) (p : Ptr) (x : MhTimer) → h p ≡ none → write (write h p (some x)) p none ≡ h
write-none h p x fresh = fun_ext λ a. ground arith

module _ {w : World} {env : PushEnv} {timer : Timer} (a : Admits w env timer) (this : Ptr)
    (given : this ≢ null) (idle : IsIdle w.man) where
  -- On a full manager with no lock held, where all else that `push` needs is to be had, `push`
  -- fails with the manager unchanged, but the new timer and its parameter block stay allocated.
  pub push-full :
      (now : Timespec)
      → env.now ≡ some now
      → w.man.max_timer_num ≤ w.man.cur_timer_num
      → push env this timer w
        ≡ ok timer_false (record w {
          timers = heap_with_new w env timer now;
          params = params_with_copy w env timer;
        })
  unfolding push push_alloc rdlock unlock lock_queue unlock_queue load_timer store_timer
  push-full now clock full =
      let a1 : Admits (set_lock w (RwLock.shared 0)) env timer = Admits-lock a in
      rw (
        ne→eqb this null given,
        idle.lock_free,
        ne→eqb _ _ a.initialised,
        ne→eqb _ _ a.enabled,
        ne→eqb _ _ a.positive,
        ne→eqb _ _ a.node_given,
        ne→eqb _ _ a.block_given,
        clock,
        copy_param-ok env.block timer _ a.readable,
        set_expiretime-new {w = set_lock w (RwLock.shared 0)} {env = env} {timer = timer} now a1,
        idle.mutex_free,
        le→leb _ _ full,
      )

  -- If the clock cannot be read, where no lock is held and all else that `push` needs is to be had,
  -- `push` fails with the manager unchanged and the timer's block freed, but the parameter block
  -- stays allocated.
  pub push-clock_failure :
      env.now ≡ none
      → push env this timer w ≡ ok timer_false (record w { params = params_with_copy w env timer })
  unfolding push push_alloc rdlock unlock
  push-clock_failure clock = rw (
    ne→eqb this null given,
    idle.lock_free,
    ne→eqb _ _ a.initialised,
    ne→eqb _ _ a.enabled,
    ne→eqb _ _ a.positive,
    ne→eqb _ _ a.node_given,
    ne→eqb _ _ a.block_given,
    clock,
    copy_param-ok env.block timer _ a.readable,
    free_timer-ok {w = set_lock (allocated w env timer) RwLock.free}
        (record { ne_null = a.node_given; holds = ground arith }),
    write-none w.timers env.node (copied timer env.block) a.node_fresh,
  )

-- The checks that let a call through, one by one.
verdict-none :
    (m : Manager) (timer : Timer)
    → verdict m timer ≡ none
    → ((m.init_flag == 0) ≡ false)
      × ((m.enable_flag == 0) ≡ false)
      × ((timer.interval == 0) ≡ false)
verdict-none m timer passed = ground (arith, passed)

-- With no lock held and the checks passed, if the timer or its parameter block cannot be allocated,
-- and the timer's block, if there is one, is a new one, `push` fails with everything as it was: the
-- timer's block is freed again.
pub push-no_memory :
    (env : PushEnv) (this : Ptr) (timer : Timer) (w : World)
    → this ≢ null
    → IsIdle w.man
    → verdict w.man timer ≡ none
    → w.timers env.node ≡ none
    → (env.node ≡ null) ⊎ (env.block ≡ null)
    → push env this timer w ≡ ok timer_false w
unfolding push push_alloc rdlock unlock
push-no_memory env this timer w given idle passed fresh missing =
    elim (Bool-cases (env.node == null)) [
      | inl no_node ↦
          let (on, enabled, positive) = verdict-none w.man timer passed in
          rw (ne→eqb this null given, idle.lock_free, on, enabled, positive, no_node)
      | inr some_node ↦
          let no_block : env.block ≡ null = ground (arith, missing, eqb→ne _ _ some_node) in
          let (on, enabled, positive) = verdict-none w.man timer passed in
          rw (
            ne→eqb this null given,
            idle.lock_free,
            on,
            enabled,
            positive,
            some_node,
            no_block,
            free_timer-ok
                {w = record (set_lock w RwLock.free) {
                  timers = write w.timers env.node (some (copied timer null));
                }}
                (record { ne_null = eqb→ne _ _ some_node; holds = ground arith }),
            write-none w.timers env.node (copied timer null) fresh,
          )
    ]

-- ===== src/Wheel/Checks.antt =====
-- The calls of `ti_add` and `ti_del` that change nothing.
use simple_timer.Prelude.{◌≤◌, ◌≡◌, ◌≢◌, ◌↔◌, ◌⊎◌, true, some, arith}
use simple_timer.Machine.{ok}
use simple_timer.Machine.Locks.{RwLock}
use simple_timer.Api.{Ptr, null, Timer, timer_true, timer_false}
use simple_timer.Wheel.State.{World, Manager, wrlock, unlock}
use simple_timer.Wheel.Timers.{AddEnv, given, check_timer, add}

-- What `ti_add` wants of a timer: an interval of at least one time slot, a callback, and a parameter
-- just when its length is not 0.
pub record IsLegal (m : Manager) (t : Timer) : Type 0 where
  pub slow : m.time_slot ≤ t.interval
  pub called : t.cb ≢ null
  pub conform : (given t.param ≡ true) ↔ (t.param_len ≢ 0)

-- `check_timer` accepts a timer just when its interval is at least a time slot, it has a callback,
-- and it has a parameter just when the parameter's length is not 0.
pub check_timer-IsLegal : (m : Manager) (t : Timer) → (check_timer m t ≡ timer_true) ↔ IsLegal m t
unfolding check_timer
check_timer-IsLegal m t = (
  λ h. record { slow = ground arith; called = ground arith; conform = ground arith },
  λ v. ground (arith, v.slow, v.called, v.conform.0, v.conform.1),
)

-- The checks of `ti_add`, in their order.
abbrev pub Refuses : Manager → Timer → Type 0
Refuses m timer =
    (m.init_flag ≡ 0)
    ⊎ (m.enable_flag ≡ 0)
    ⊎ (m.timer_max_num ≤ m.cur_timer_num)
    ⊎ (check_timer m timer ≡ timer_false)

-- A call that a check refuses returns 0 and changes nothing.
pub add-refused :
    (env : AddEnv) (this : Ptr) (timer : Timer) (w : World)
    → this ≢ null
    → w.man.lock ≡ RwLock.free
    → Refuses w.man timer
    → add env this timer w ≡ ok (some 0) w
unfolding add wrlock unlock
add-refused env this timer w here idle why = ground arith

-- ===== src/Wheel/Starting.antt =====
-- `ti_start` gives its lock back twice.
use simple_timer.Prelude.{ℕ, ◌≡◌, ◌≢◌, refl, some, ne→eqb}
use simple_timer.Machine.{fault}
use simple_timer.Machine.Locks.{RwLock}
use simple_timer.Api.{Ptr, null, TimerStartType, unblock, block}
use simple_timer.Wheel.State.{World, wrlock, unlock}
use simple_timer.Wheel.Lifecycle.{StartEnv, start}

-- With no lock held, on a manager that is not started, if the thread is created, and the threads
-- that run during a join leave a free lock free, `ti_start` releases a lock that is not held.
pub start-double_unlock :
    (env : StartEnv) (this : Ptr) (kind : TimerStartType) (w : World) (pid : ℕ)
    → this ≢ null
    → w.man.lock ≡ RwLock.free
    → w.man.start_flag ≢ 1
    → env.created ≡ some pid
    → ((v : World) → v.man.lock ≡ RwLock.free → (env.joined v).man.lock ≡ RwLock.free)
    → start env this kind w ≡ fault
unfolding start wrlock unlock
start-double_unlock env this unblock w pid here idle stopped created quiet =
    rw (ne→eqb this null here, idle, ne→eqb w.man.start_flag 1 stopped, created)
start-double_unlock env this block w pid here idle stopped created quiet = rw (
  ne→eqb this null here,
  idle,
  ne→eqb w.man.start_flag 1 stopped,
  created,
  quiet (record w { man = record (w.man) { lock = RwLock.free; start_flag = 1; pid = pid } }) refl,
)

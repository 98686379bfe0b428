-- ===== src/Wheel/Ready.antt =====
-- `ti_init`, and then the first `ti_add`.
use simple_timer.Prelude.{ℕ, ◌+◌, ◌≤◌, ◌≡◌, ◌≢◌, ◌↔◌, true, false, some, List, []}
use simple_timer.Api.{Ptr, null, Timer}
use simple_timer.Wheel.State.{in_array}
use simple_timer.Wheel.Lifecycle.{TimerManagerConf}
use simple_timer.Wheel.Timers.{AddEnv, given}
use simple_timer.Wheel.Due.{IsInRange}
use simple_timer.Wheel.Abstract.{Rota}
use simple_timer.Wheel.Adding.{copy_of}

-- No slot has a timer.
abbrev pub empty : Rota
empty j = []

-- A timer for a manager with this configuration, and the memory for it.
pub record CanJoin (env : AddEnv) (timer : Timer) (array : Ptr) (conf : TimerManagerConf)
    (cur_slot : ℕ) : Type 0 where
  pub slow : conf.time_slot ≤ timer.interval
  pub called : timer.cb ≢ null
  pub conform : (given timer.param ≡ true) ↔ (timer.param_len ≢ 0)
  pub fits : IsInRange cur_slot conf.slot_num conf.time_slot timer.interval
  pub node : env.node ≢ null
  pub block : env.block ≢ null
  pub apart : in_array array conf.slot_num env.node ≡ false
  pub bytes : List ℕ
  pub copy : copy_of timer ≡ some bytes
  pub tree_node : env.tree_node ≢ null
  pub spare : ℕ
  pub fuel : env.fuel ≡ spare + 2

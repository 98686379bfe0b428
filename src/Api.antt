-- ===== src/Api.antt =====
-- The types of src/timer.h that both timers share, and the order of `struct timespec`.
mod Tests
pub mod Order
use simple_timer.Prelude.{ℕ, Bool, ◌&&◌, ◌||◌, Option, List, ltb, leb, ◌==◌}

-- `TIMER_TRUE` is 0 and `TIMER_FALSE` is -1.
pub data TimerBool : Type 0 where
  timer_true timer_false : TimerBool

pub data TimerType : Type 0 where
  single_shot repeat : TimerType

pub data TimerStartType : Type 0 where
  unblock block : TimerStartType

pub data TimerRunType : Type 0 where
  direct signal thread : TimerRunType

-- An address. NULL is 0.
abbrev pub Ptr : Type 0
Ptr = ℕ

abbrev pub null : Ptr
null = 0

-- `struct timer` as the caller passes it: `param` is NULL or the bytes that the pointer leads to.
pub record Timer : Type 0 where
  pub kind : TimerType
  pub run_type : TimerRunType
  pub interval : ℕ
  pub cb : Ptr
  pub param : Option (List ℕ)
  pub param_len : ℕ

pub record Timespec : Type 0 where
  pub tv_sec : ℕ
  pub tv_nsec : ℕ

unfoldable pub less : Timespec → Timespec → Bool
less a b = ltb a.tv_sec b.tv_sec || (a.tv_sec == b.tv_sec && ltb a.tv_nsec b.tv_nsec)

unfoldable pub great : Timespec → Timespec → Bool
great a b = ltb b.tv_sec a.tv_sec || (a.tv_sec == b.tv_sec && ltb b.tv_nsec a.tv_nsec)

unfoldable pub gte : Timespec → Timespec → Bool
gte a b = ltb b.tv_sec a.tv_sec || (a.tv_sec == b.tv_sec && leb b.tv_nsec a.tv_nsec)

-- ===== src/MinHeap/Memory.antt =====
-- The reads and writes of State on a manager with a live array.
use mathlib.Core.Path.{fun_ext}
use simple_timer.Prelude.{ℕ, ◌<◌, ◌≡◌, ◌≢◌, Bool, true, false, Option, none, some, List, arith}
use simple_timer.Prelude.Arrays.{length, get_or, set, get_elem?-get_or, get_or-set}
use simple_timer.Machine.{ok}
use simple_timer.Api.{Ptr, null, single_shot, direct, Timespec}
use simple_timer.MinHeap.State.{
  MhTimer, live, World, load_slot, store_slot, load_timer, write, free_timer, store_timer,
}
use simple_timer.MinHeap.Heap.{put}

abbrev pub with_queue : World → List Ptr → World
with_queue w q = record w { man = record (w.man) { queue = live q } }

-- What stands for a timer where there is none.
abbrev pub no_timer : MhTimer
no_timer = record {
  kind = single_shot;
  run_type = direct;
  interval = 0;
  cb = 0;
  param = 0;
  param_len = 0;
  expiretime = record { tv_sec = 0; tv_nsec = 0 };
}

abbrev pub timer_or : Option MhTimer → MhTimer
timer_or none = no_timer
timer_or (some x) = x

-- The blocks of `malloc` that hold timers.
abbrev pub Timers : Type 0
Timers = Ptr → Option MhTimer

abbrev pub timer_at : Timers → Ptr → MhTimer
timer_at h p = timer_or (h p)

-- The expiry time of the timer in slot `c`.
abbrev pub keys : Timers → List Ptr → ℕ → Timespec
keys h q c = (timer_at h (get_or null q c)).expiretime

abbrev pub is_some : Option MhTimer → Bool
is_some none = false
is_some (some x) = true

-- `p` points to a live block.
pub record IsTimer (h : Timers) (p : Ptr) : Type 0 where
  pub ne_null : p ≢ null
  pub holds : is_some (h p) ≡ true

pub load_timer-ok :
    {w : World} {p : Ptr} → IsTimer w.timers p → load_timer p w ≡ ok (timer_at w.timers p) w
unfolding load_timer
load_timer-ok {w} {p} h = ground arith

pub store_timer-ok :
    {w : World} {p : Ptr} (x : MhTimer)
    → IsTimer w.timers p
    → store_timer p x w ≡ ok tt (record w { timers = write w.timers p (some x) })
unfolding store_timer
store_timer-ok x h = ground arith

pub free_timer-ok :
    {w : World} {p : Ptr}
    → IsTimer w.timers p
    → free_timer p w ≡ ok tt (record w { timers = write w.timers p none })
unfolding free_timer
free_timer-ok h = ground arith

module _ {w : World} {q : List Ptr} (e : w.man.queue ≡ live q) (i : ℕ) (h : i < length q) where
  pub load_slot-ok : load_slot i w ≡ ok (get_or null q i) w
  unfolding load_slot
  load_slot-ok = rw (e, get_elem?-get_or null q i h)

  pub store_slot-ok : (t : Ptr) → store_slot i t w ≡ ok tt (with_queue w (set q i t))
  unfolding store_slot
  store_slot-ok t = rw (e, get_elem?-get_or null q i h)

pub keys-set :
    (h : Timers) (q : List Ptr) (i : ℕ) (t : Ptr)
    → i < length q
    → keys h (set q i t) ≡ put (keys h q) i (timer_at h t).expiretime
keys-set h q i t p = fun_ext λ c. ground (arith, get_or-set null q i c t p)

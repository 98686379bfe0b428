-- ===== src/Wheel/Ids.antt =====
-- The ids that `ti_init` gives out.
use native.Mathlib.Decide.{dec_lt}
use native.Mathlib.Nat.{zero-div}
use simple_timer.Prelude.{
  ℕ, sym, ◌-◌, ◌/◌, ◌%◌, ◌^◌, ◌<◌, ◌≡◌, refl, ◌∙◌, ap, false, List, some, arith,
}
use simple_timer.Prelude.Arrays.{get_or, get_elem?-get_or}
use simple_timer.Machine.{ok}
use simple_timer.Api.{Ptr, timer_true}
use simple_timer.IdPool.{bitmap_bytes}
use simple_timer.IdPool.Bits.{bit}
use simple_timer.IdPool.Find.{IsBytes, taken}
use simple_timer.IdPool.Turnover.{IsPool, bitmap_bytes-bounds}
use simple_timer.Wheel.State.{live, World, pool_of}
use simple_timer.Wheel.Lifecycle.{TimerManagerConf, InitEnv, init}
use simple_timer.Wheel.Init.{CanInit, IsReady, init-IsReady, Bounds-sound}

taken-zero : (tmp : List ℕ) (n : ℕ) → get_or 0 tmp (n / 8) ≡ 0 → taken tmp n ≡ false
unfolding taken bit
taken-zero tmp n e = rw e (rw (zero-div (2 ^ (7 - n % 8))) refl)

IsReady-IsBytes :
    (env : InitEnv) (this : Ptr) (conf : TimerManagerConf) (w w' : World)
    → (c : CanInit env this conf w) → ((i : ℕ) → c.bytes i < 256)
    → (r : IsReady env conf c.bytes w.man w') → IsBytes r.bitmap
IsReady-IsBytes env this conf w w' c bytes r i l = elim (dec_lt i 4) [
  | yes low ↦ omega (arith, r.bytes_free i low)
  | no high ↦
      let left = r.bytes_left i (omega arith) (omega (arith, r.size)) in
      let here : get_or 0 r.bitmap i ≡ c.bytes i =
        ground (arith, left, get_elem?-get_or 0 r.bitmap i l) in
      omega (arith, here, bytes i)
]

-- The ids of a manager that is ready. Of the bitmap only the first 32 bits are known to be clear.
pub IsReady-IsPool :
    (env : InitEnv) (this : Ptr) (conf : TimerManagerConf) (w w' : World)
    → (c : CanInit env this conf w) → 24 < conf.timer_max_num
    → ((i : ℕ) → c.bytes i < 256)
    → (r : IsReady env conf c.bytes w.man w')
    → IsPool (pool_of w'.man r.bitmap) × ((n : ℕ) → n < 32 → taken r.bitmap n ≡ false)
IsReady-IsPool env this conf w w' c many bytes r =
    let positive = (Bounds-sound conf c.sound).ids in
    let bounds = bitmap_bytes-bounds conf.timer_max_num positive c.small in
    let free_ids : (n : ℕ) → n < 32 → taken r.bitmap n ≡ false =
      λ n l. taken-zero r.bitmap n (r.bytes_free (n / 8) (omega arith)) in
    (
      record {
        size = r.size ∙ ap bitmap_bytes (sym r.timer_max_num);
        bytes = IsReady-IsBytes env this conf w w' c bytes r;
        positive = rw r.timer_max_num positive;
        small = rw r.timer_max_num c.small;
        least =
            rw (r.least, r.timer_max_num)
              (record {
                below = λ n l. absurd (omega arith);
                free = λ n e. free_ids n (omega arith);
                range = omega (arith, bounds);
                full = λ e. absurd (omega arith);
              });
      },
      free_ids,
    )

-- With no lock held, on a manager that is not initialised, with a sound configuration for 25 timers
-- or more, and all that is asked for to be had, `ti_init` succeeds and leaves a consistent pool of
-- ids of which none of the first 32 is taken.
pub init-IsPool :
    (env : InitEnv) (this : Ptr) (conf : TimerManagerConf) (w : World)
    → (c : CanInit env this conf w) → 24 < conf.timer_max_num
    → ((i : ℕ) → c.bytes i < 256)
    → (w' : World) × (bitmap : List ℕ) × (init env this (some conf) w ≡ ok timer_true w')
      × (w'.man.timer_fd_bitmap ≡ live bitmap)
      × IsPool (pool_of w'.man bitmap)
      × ((n : ℕ) → n < 32 → taken bitmap n ≡ false)
init-IsPool env this conf w c many bytes =
    let (w', run, r) = init-IsReady env this conf w c many in
    let (pool, free_ids) = IsReady-IsPool env this conf w w' c many bytes r in
    (w', r.bitmap, run, r.ids, pool, free_ids)

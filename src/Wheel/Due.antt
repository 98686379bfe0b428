-- ===== src/Wheel/Due.antt =====
-- Where a timer goes on the wheel, and when it is due.
use native.Mathlib.Nat.{mod-lt, mod-add-mod, mod-eq_of_lt, div-div-eq-div-mul, mod-add-div'}
use simple_timer.Prelude.{
  ℕ, ◌+◌, ◌-◌, ◌*◌, ◌/◌, ◌%◌, ◌^◌, ◌<◌, ◌≡◌, ◌≢◌, ◌∙◌, sym, ap, arith, ne→eqb,
}
use simple_timer.Machine.{ok}
use simple_timer.Wheel.State.{World}
use simple_timer.Wheel.Timers.{index_of, round_of}

-- How many steps slot `i` is ahead of slot `c` on a wheel of `n` slots.
abbrev pub ahead : (n c i : ℕ) → ℕ
ahead n c i = (i + (n - c)) % n

pub ahead-mod : (n c d : ℕ) → c < n → ahead n c ((c + d) % n) ≡ d % n
ahead-mod n c d below =
    mod-add-mod (c + d) n (n - c)
    ∙ ap (λ (k : ℕ). k % n) (let e : c + d + (n - c) ≡ n + d = omega arith in e)
    ∙ sym (mod-add-mod n n d)
    ∙ grind arith

-- What keeps the sums and products of `ti_add` within an `unsigned int`.
pub record IsInRange (cur_slot slot_num time_slot interval : ℕ) : Type 0 where
  pub slots : 0 < slot_num
  pub period : 0 < time_slot
  pub inside : cur_slot < slot_num
  pub turn : time_slot * slot_num < 2 ^ 32
  pub reach : cur_slot + interval / time_slot < 2 ^ 32

abbrev pub Fits : World → ℕ → Type 0
Fits w interval = IsInRange w.man.cur_slot w.man.slot_num w.man.time_slot interval

pub index_of-ok :
    (w : World) (interval : ℕ)
    → Fits w interval
    → index_of interval w ≡ ok ((w.man.cur_slot + interval / w.man.time_slot) % w.man.slot_num) w
unfolding index_of
index_of-ok w interval f = rw (
  ne→eqb w.man.time_slot 0 (omega (arith, f.period)),
  ne→eqb w.man.slot_num 0 (omega (arith, f.slots)),
  mod-eq_of_lt f.reach,
)

pub round_of-ok :
    (w : World) (interval : ℕ)
    → Fits w interval
    → round_of interval w ≡ ok (interval / (w.man.time_slot * w.man.slot_num)) w
unfolding round_of
round_of-ok w interval f =
    let n = w.man.slot_num in
    let t = w.man.time_slot in
    let nz : n ≢ 0 = omega (arith, f.slots) in
    let tz : t ≢ 0 = omega (arith, f.period) in
    let pz : t * n ≢ 0 = grind arith in rw (mod-eq_of_lt f.turn, ne→eqb (t * n) 0 pz)

-- The slot of a timer is on the wheel, and the steps to it from the current slot and the slots of
-- its rounds are together the timer's interval in time slots.
pub index_of-round_of :
    (w : World) (interval : ℕ)
    → Fits w interval
    → (i : ℕ) × (r : ℕ) × (index_of interval w ≡ ok i w)
      × (round_of interval w ≡ ok r w)
      × (i < w.man.slot_num)
      × (ahead w.man.slot_num w.man.cur_slot i + r * w.man.slot_num ≡ interval / w.man.time_slot)
index_of-round_of w interval f =
    let n = w.man.slot_num in
    let t = w.man.time_slot in
    let d = interval / t in
    (
      (w.man.cur_slot + d) % n,
      interval / (t * n),
      index_of-ok w interval f,
      round_of-ok w interval f,
      mod-lt _ f.slots,
      rw (ahead-mod n w.man.cur_slot d f.inside, sym (div-div-eq-div-mul interval t n))
          (mod-add-div' d n),
    )

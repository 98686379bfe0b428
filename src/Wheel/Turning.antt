-- ===== src/Wheel/Turning.antt =====
-- The hand of the wheel: the slot that is due, tick by tick.
use native.Mathlib.Nat.{mod-add-mod, add-mod-mod, add-mod_right, mod-eq_of_lt, mod-lt, mod_self}
use simple_timer.Prelude.{
  ℕ, zero, suc, ◌+◌, ◌-◌, ◌%◌, ◌^◌, ◌<◌, ◌≤◌, ◌≡◌, ◌∙◌, sym, ap, inl, inr, arith, ◌==◌, Bool-cases,
  eqb→eq, eqb→ne,
}
use simple_timer.Machine.{Run, ok, pure, ◌>>◌}
use simple_timer.Wheel.State.{World, Op, dec}
use simple_timer.Wheel.Worker.{advance}
use simple_timer.Wheel.Due.{ahead}

-- The hand stands on a slot of the wheel.
pub record IsTurning (w : World) : Type 0 where
  pub inside : w.man.cur_slot < w.man.slot_num
  pub small : w.man.slot_num ≤ 2 ^ 32

-- The world after the hand has moved.
abbrev pub at_slot : World → ℕ → World
at_slot w i = record w { man = record (w.man) { cur_slot = i } }

to_slot :
    (w : World) {i j : ℕ}
    → i ≡ j
    → ◌≡◌ {A = Run World (Unit {0})} (ok tt (at_slot w i)) (ok tt (at_slot w j))
to_slot w e = ap (λ (k : ℕ). ok tt (at_slot w k)) e

step_sum : (c n k : ℕ) → ((c + 1) % n + k) % n ≡ (c + suc k) % n
step_sum c n k = mod-add-mod (c + 1) n k ∙ ap (λ (j : ℕ). j % n) (omega arith)

round_trip : (n c i : ℕ) → c < n → i < n → (c + ahead n c i) % n ≡ i
round_trip n c i below inside =
    let e : c + (i + (n - c)) ≡ i + n = omega arith in
    add-mod-mod c (i + (n - c)) n ∙ rw e (add-mod_right i n ∙ mod-eq_of_lt inside)

pub advance-step :
    (w : World)
    → IsTurning w
    → advance w ≡ ok tt (at_slot w ((w.man.cur_slot + 1) % w.man.slot_num))
unfolding advance
advance-step w v = elim (Bool-cases (w.man.cur_slot == dec w.man.slot_num)) [
  | inl last ↦
      let e : w.man.cur_slot + 1 ≡ w.man.slot_num =
        omega (arith, eqb→eq w.man.cur_slot (dec w.man.slot_num) last) in
      rw last (to_slot w (sym (rw e (mod_self w.man.slot_num))))
  | inr before ↦
      let below : w.man.cur_slot + 1 < w.man.slot_num =
        omega (arith, eqb→ne w.man.cur_slot (dec w.man.slot_num) before) in
      rw before (to_slot w (omega (arith, mod-eq_of_lt below)))
]

-- `n` steps to the next slot.
unfoldable pub turn : ℕ → Op (Unit {0})
turn zero = pure tt
turn (suc n) = do advance; turn n

-- The hand after `n` steps.
pub turn_lem :
    (n : ℕ) (w : World)
    → IsTurning w
    → turn n w ≡ ok tt (at_slot w ((w.man.cur_slot + n) % w.man.slot_num))
unfolding turn
turn_lem zero w v = to_slot w (grind arith)
turn_lem (suc n) w v =
    let w1 = at_slot w ((w.man.cur_slot + 1) % w.man.slot_num) in
    let v1 : IsTurning w1 = record { inside = mod-lt _ (omega arith); small = v.small } in
    rw (advance-step w v) (turn_lem n w1 v1 ∙ to_slot w (step_sum w.man.cur_slot w.man.slot_num n))

-- With the hand on a slot of the wheel, every slot `i` is reached after fewer steps than there are
-- slots: `ahead` of them bring the hand to `i`, and change nothing else.
pub turn-reaches :
    (i : ℕ) (w : World)
    → IsTurning w
    → i < w.man.slot_num
    → (turn (ahead w.man.slot_num w.man.cur_slot i) w ≡ ok tt (at_slot w i))
      × (ahead w.man.slot_num w.man.cur_slot i < w.man.slot_num)
turn-reaches i w v inside =
    let n = w.man.slot_num in
    let c = w.man.cur_slot in
    (
      turn_lem (ahead n c i) w v ∙ to_slot w (round_trip n c i v.inside inside),
      mod-lt _ (omega arith),
    )

-- ===== src/Wheel/Tests/Adding.antt =====
-- A third timer comes to the wheel.
use simple_timer.Prelude.{
  ℕ, zero, suc, sym, some, ◌<◌, ◌≡◌, refl, true, false, List, [], ◌∷◌, arith,
}
use simple_timer.Prelude.Arrays.{get_or}
use simple_timer.IdPool.{before, bitmap_bytes}
use simple_timer.IdPool.Bits.{bit}
use simple_timer.IdPool.Find.{taken, IsBytes}
use simple_timer.IdPool.Turnover.{IsPool}
use simple_timer.Machine.{ok}
use simple_timer.Wheel.State.{World, pool_of}
use simple_timer.RbTree.Grow.{IsRbTree}
use simple_timer.RbTree.Shape.{Shape, leaf, node}
use simple_timer.RbTree.{Color}
use simple_timer.Wheel.Entered.{rooted, CanPlant, Joined, add-Joined}
use simple_timer.Wheel.Timers.{add}
use simple_timer.Wheel.Checks.{check_timer-IsLegal}
use simple_timer.Wheel.Added.{CanAdd, Added}
use simple_timer.Wheel.Tests.{
  two_planted, id_1, id_2, two_timers, two_timers-IsWheel, four_slots, in_slot_1, in_range,
}
use simple_timer.Wheel.Tests.Life.{plain_timer, plain_timer-IsLegal, memory_at_3}

pub four_bytes : bitmap_bytes 30 ≡ 4
unfolding bitmap_bytes before
four_bytes = refl

abbrev pub two_taken : List ℕ
two_taken = 192 ∷ 0 ∷ 0 ∷ 0 ∷ []

two_taken-IsBytes : IsBytes two_taken
unfolding get_or
two_taken-IsBytes zero l = omega arith
two_taken-IsBytes (suc zero) l = omega arith
two_taken-IsBytes (suc (suc zero)) l = omega arith
two_taken-IsBytes (suc (suc (suc zero))) l = omega arith
two_taken-IsBytes (suc (suc (suc (suc i)))) l = absurd (omega arith)

two_taken-below : (n : ℕ) → suc n < 3 → taken two_taken n ≡ true
unfolding taken bit get_or
two_taken-below zero l = refl
two_taken-below (suc zero) l = refl
two_taken-below (suc (suc n)) l = absurd (omega arith)

two_taken-free : (n : ℕ) → suc n ≡ 3 → taken two_taken n ≡ false
unfolding taken bit get_or
two_taken-free zero e = absurd (omega arith)
two_taken-free (suc zero) e = absurd (omega arith)
two_taken-free (suc (suc zero)) e = refl
two_taken-free (suc (suc (suc n))) e = absurd (omega arith)

pub two_taken-IsPool : IsPool (pool_of two_timers.man two_taken)
two_taken-IsPool = record {
  size = sym four_bytes;
  bytes = two_taken-IsBytes;
  positive = omega arith;
  small = omega arith;
  least = record {
    below = two_taken-below;
    free = two_taken-free;
    range = rw four_bytes (omega arith);
    full = λ e. absurd (omega arith);
  };
}

can_add : CanAdd memory_at_3 8 plain_timer two_timers four_slots in_slot_1 two_taken 2
can_add = record {
  here = omega arith;
  idle = refl;
  initialised = omega arith;
  enabled = omega arith;
  room = omega arith;
  legal = (check_timer-IsLegal two_timers.man plain_timer).1 plain_timer-IsLegal;
  fits = in_range;
  node = omega arith;
  block = omega arith;
  bytes = [];
  copy = refl;
  off = λ j l. ground arith;
  held = refl;
  pool = two_taken-IsPool;
  least = refl;
}

abbrev pub two_ids : Shape
two_ids = node Color.black id_1 leaf (node Color.red id_2 leaf leaf)

pub two_ids-IsRbTree : IsRbTree two_planted two_ids
two_ids-IsRbTree = record {
  stands = record {
    tied = (omega arith, refl, tt, (omega arith, refl, tt, tt));
    apart = λ a. ground arith;
  };
  balanced = (refl, (refl, tt, tt, (refl, (refl, refl), tt, tt)));
  ascending = ((omega arith, tt), (tt, tt));
}

can_plant : CanPlant memory_at_3 two_timers two_ids
can_plant = record {
  planted = two_ids-IsRbTree;
  root = refl;
  there = omega arith;
  new = refl;
  spare = 7;
  enough = omega arith;
  fuel = refl;
}

add-Joined_example :
    (w1 : World) × (w' : World) × (i : ℕ) × (add memory_at_3 8 plain_timer two_timers
      ≡ ok (some 3) w')
    × Added memory_at_3 plain_timer two_timers four_slots in_slot_1 two_taken 2 i w1
    × (w' ≡ rooted memory_at_3 i w1 four_slots w'.man.rb_root w'.tree)
    × Joined memory_at_3 plain_timer two_timers four_slots in_slot_1 two_ids 2 i w'
add-Joined_example =
    add-Joined memory_at_3 8 plain_timer two_timers four_slots in_slot_1 two_ids two_taken 2
      two_timers-IsWheel can_add can_plant

-- ===== src/Wheel/Tests/Removing.antt =====
-- A timer is deleted by its id.
use simple_timer.Prelude.{◌+◌, ◌≡◌, refl, inl, [], ◌∷◌, arith}
use simple_timer.Machine.{ok}
use simple_timer.Api.{timer_true}
use simple_timer.RbTree.{Color}
use simple_timer.RbTree.Shape.{cell}
use simple_timer.Wheel.State.{World}
use simple_timer.Wheel.Deletion.{del}
use simple_timer.Wheel.Abstract.{without}
use simple_timer.Wheel.Deleted.{CanDelete, Deleted, del-Deleted}
use simple_timer.Wheel.Tests.{
  id_1, repeating, two_timers, two_timers-IsWheel, four_slots, in_slot_1,
}
use simple_timer.Wheel.Tests.Adding.{
  two_ids, two_ids-IsRbTree, two_taken, two_taken-IsPool, four_bytes,
}

can_delete : CanDelete 8 two_timers two_ids two_taken 0 1 repeating
can_delete = record {
  here = omega arith;
  idle = refl;
  planted = two_ids-IsRbTree;
  root = refl;
  known = omega arith;
  leaf = cell Color.black id_1 0 72 0;
  leads = refl;
  datum = refl;
  held = refl;
  pool = two_taken-IsPool;
  inside = rw four_bytes (omega arith);
  some_free = omega arith;
  place = omega arith;
  timer = refl;
  block = inl refl;
}

del-Deleted_example :
    (w' : World) × (del (2 + 2) 8 1 two_timers ≡ ok timer_true w')
    × Deleted two_timers four_slots
        (without 1 (2 ∷ []) in_slot_1)
        two_ids
        two_taken
        0
        1
        repeating
        w'
del-Deleted_example =
    del-Deleted 8 two_timers 2 two_ids two_taken 0 1 repeating can_delete (omega arith) four_slots
      in_slot_1 1 [] (2 ∷ []) two_timers-IsWheel (omega arith) refl

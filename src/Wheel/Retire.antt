-- ===== src/Wheel/Retire.antt =====
-- The end of a one-shot timer.
use simple_timer.Prelude.{ℕ, ◌≡◌, ◌≢◌, none, arith, ◌==◌, if◌then◌else◌}
use simple_timer.Machine.{ok, fault}
use simple_timer.Machine.Ends.{and_then-eq-ok, fault-ne-ok}
use simple_timer.Api.{Ptr}
use simple_timer.Wheel.State.{
  World, load_timer, free_param, free_timer, release_timer, rdlock, on_links, on_tree,
}
use simple_timer.LinkedList.{load, list_del}
use simple_timer.RbTree.Erase.{erase}
use simple_timer.Wheel.Worker.{retire}

gone : (t : Ptr) (w w' : World) → w'.timers t ≡ none → load_timer t w' ≡ fault
unfolding load_timer
gone t w w' e = ground (arith, e)

-- A block that has been released is no longer there to be read.
release_timer-gone :
    (t : Ptr) (w w' : World) → release_timer t w ≡ ok tt w' → load_timer t w' ≡ fault
unfolding release_timer free_timer
release_timer-gone t w w' e =
    let (x, w1, _, e1) = and_then-eq-ok (load_timer t w) _ e in
    let (_, w2, _, e2) =
      and_then-eq-ok ((if x.param_len == 0 then ok tt else free_param x.param) w1) _ e1 in
    let (y, w3, _, e3) = and_then-eq-ok (load_timer t w2) _ e2 in gone t w3 w' (ground (arith, e3))

-- Whatever the state, the branch of the timer thread for a one-shot timer that is due does not end
-- normally: it reads the timer's id after the timer has been freed.
pub retire-ne-ok :
    (fuel : ℕ) (tmp temp : Ptr) (slot : ℕ) (w w' : World) → retire fuel tmp temp slot w ≢ ok tt w'
unfolding retire
retire-ne-ok fuel tmp temp slot w w' e =
    let (_, w1, _, e1) = and_then-eq-ok (rdlock w) _ e in
    let (l, w2, _, e2) = and_then-eq-ok (on_links (load tmp) w1) _ e1 in
    let (_, w3, _, e3) = and_then-eq-ok (on_links (list_del l.next) w2) _ e2 in
    let (x, w4, _, e4) = and_then-eq-ok (load_timer temp w3) _ e3 in
    let (top, w5, _, e5) = and_then-eq-ok (on_tree (erase fuel x.id w4.man.rb_root) w4) _ e4 in
    let w6 : World = record w5 { man = record (w5.man) { rb_root = top } } in
    let (_, w7, freed, e7) = and_then-eq-ok (release_timer temp w6) _ e5 in
    let (y, w8, read, _) = and_then-eq-ok (load_timer temp w7) _ e7 in
    fault-ne-ok (release_timer-gone temp w6 w7 freed) read

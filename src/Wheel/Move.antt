-- ===== src/Wheel/Move.antt =====
-- `del_and_add`: a repeating timer moves to the slot of its next expiry.
use simple_timer.Prelude.{
  ℕ, ◌+◌, ◌*◌, ◌/◌, ◌<◌, ◌≤◌, ◌≡◌, ◌≢◌, refl, ◌∙◌, sym, ap, false, ◌⊎◌, some, List, ◌∷◌, ◌++◌,
  arith, leb, ne→eqb,
}
use simple_timer.Prelude.Arrays.{get_elem?-some}
use simple_timer.Machine.{ok}
use simple_timer.Machine.Locks.{RwLock}
use simple_timer.Api.{Ptr, null, timer_true, timer_false}
use simple_timer.LinkedList.{Memory}
use simple_timer.Wheel.State.{
  live, write, inc, dec, TimerInternal, Slots, World, set_lock, wrlock, unlock,
}
use simple_timer.Wheel.Timers.{move_timer, del_and_add}
use simple_timer.Wheel.Due.{ahead, Fits, index_of-round_of}
use simple_timer.Wheel.Heads.{with_nodes, head_of-ok}
use simple_timer.Wheel.Enlist.{interval_of, IsTimer, load_timer-ok, store_timer-ok}
use simple_timer.Wheel.Abstract.{Rota, without, with_timer, IsWheel, IsWheel-list_del, IsWheel-lock}
use simple_timer.Wheel.Place.{
  IsWheel-enlist, counted, change_count-ok, IsWheel-counted, IsTimer-value, IsWheel-value,
}

-- The world after `t`, whose record was `x`, has moved from `slot`, where the others are `rest`.
pub record Moved (w : World) (s : Slots) (on : Rota) (slot : ℕ) (t : Ptr) (x : TimerInternal)
    (rest : List Ptr) (w' : World) : Type 0 where
  pub index : ℕ
  pub round : ℕ
  pub memory : Memory
  pub inside : index < w.man.slot_num
  pub due :
      ahead w.man.slot_num w.man.cur_slot index + round * w.man.slot_num
      ≡ x.interval / w.man.time_slot
  pub world : w' ≡ record w {
    man = record (w.man) {
      slots = live (record s { nodes = counted inc index (counted dec slot s.nodes) });
    };
    links = memory;
    timers = write w.timers t (some (record x { round = round }));
  }
  pub wheel :
      IsWheel w'
        (record s { nodes = counted inc index (counted dec slot s.nodes) })
        (with_timer (interval_of w') index t (without slot rest on))

move_timer-Moved :
    (w : World) (s : Slots) (on : Rota) (slot : ℕ) (t : Ptr) (x : TimerInternal) (xs ys : List Ptr)
    → IsWheel w s on
    → slot < w.man.slot_num
    → on slot ≡ xs ++ t ∷ ys
    → t ≢ null
    → w.timers t ≡ some x
    → Fits w x.interval
    → (w' : World) × (move_timer t slot w ≡ ok tt w') × Moved w s on slot t x (xs ++ ys) w'
unfolding move_timer
move_timer-Moved w s on slot t x xs ys v inside here place stands f =
    let (m1, run1, v1, off) = IsWheel-list_del w s on slot t xs ys v inside here in
    let on1 = without slot (xs ++ ys) on in
    let w1 : World = record w { links = m1 } in
    let nodes2 = counted dec slot s.nodes in
    let s2 : Slots = record s { nodes = nodes2 } in
    let w2 = with_nodes w1 s v1.held nodes2 in
    let v2 = IsWheel-counted w1 s on1 v1 slot inside dec in
    let k2 : IsTimer w2 t = record { place = place; value = x; stands = stands } in
    let (i, r, run3, run4, index, due) = index_of-round_of w2 x.interval f in
    let (node, there) = get_elem?-some nodes2 i (omega (arith, v2.size)) in
    let x' : TimerInternal = record x { round = r } in
    let w3 : World = record w2 { timers = write w2.timers t (some x') } in
    let v3 = IsWheel-value w2 s2 on1 v2 t k2 x' in
    let (m4, run5, v4) =
      IsWheel-enlist w3 s2 on1 i t v3 index (record { off = off.off; live = off.live })
        (IsTimer-value w2 s2 on1 v2 t k2 x') in
    let w4 : World = record w3 { links = m4 } in
    let on4 = with_timer (interval_of w3) i t on1 in
    (
      with_nodes w4 s2 v4.held (counted inc i nodes2),
      rw (
        run1,
        change_count-ok w1 s on1 v1 slot inside dec,
        load_timer-ok w2 t k2,
        run3,
        head_of-ok w2 s2 refl i node there,
        run4,
        store_timer-ok w2 t k2 x',
        run5,
        change_count-ok w4 s2 on4 v4 i index inc,
      ),
      record {
        index = i;
        round = r;
        memory = m4;
        inside = index;
        due = due;
        world = refl;
        wheel = IsWheel-counted w4 s2 on4 v4 i index inc;
      },
    )

-- A call of `del_and_add` that nothing refuses.
pub record CanMove (this : Ptr) (w : World) : Type 0 where
  pub here : this ≢ null
  pub idle : w.man.lock ≡ RwLock.free
  pub initialised : w.man.init_flag ≢ 0
  pub room : w.man.cur_timer_num < w.man.timer_max_num

del_and_add-run :
    (this t : Ptr) (slot : ℕ) (w w' : World)
    → CanMove this w
    → w'.man.lock ≡ RwLock.exclusive
    → move_timer t slot (set_lock w RwLock.exclusive) ≡ ok tt w'
    → del_and_add this t slot w ≡ ok timer_true (set_lock w' RwLock.free)
unfolding del_and_add wrlock unlock
del_and_add-run this t slot w w' c held run =
    let room : leb w.man.timer_max_num w.man.cur_timer_num ≡ false = ground (arith, c.room) in
    rw (ne→eqb this null c.here, c.idle, ne→eqb w.man.init_flag 0 c.initialised, room, run, held)

-- On a wheel, with no lock held, of an initialised manager that is not full, for a timer on the
-- list of `slot`, with sums and products within 32 bits, `del_and_add` succeeds with the lock free:
-- the timer is off its list and on that of another or the same slot, at its front if its first
-- timer has a longer interval and else at its end, all other lists are as they were, the steps from
-- the current slot and the rounds times the slots are together `interval / time_slot`, one count
-- has fallen and the other risen by one, and nothing else has changed.
pub del_and_add-Moved :
    (this : Ptr) (w : World) (s : Slots) (on : Rota) (slot : ℕ) (t : Ptr) (x : TimerInternal)
    (xs ys : List Ptr)
    → CanMove this w
    → IsWheel w s on
    → slot < w.man.slot_num
    → on slot ≡ xs ++ t ∷ ys
    → t ≢ null
    → w.timers t ≡ some x
    → Fits w x.interval
    → (w' : World) × (del_and_add this t slot w ≡ ok timer_true w')
      × Moved w s on slot t x (xs ++ ys) w'
del_and_add-Moved this w s on slot t x xs ys c v inside here place stands f =
    let w0 = set_lock w RwLock.exclusive in
    let (w1, run, m) =
      move_timer-Moved w0 s on slot t x xs ys (IsWheel-lock RwLock.exclusive v) inside here place
        stands f in
    let locked : RwLock → World = λ l. record w {
      man = record (w.man) {
        lock = l;
        slots = live (record s { nodes = counted inc m.index (counted dec slot s.nodes) });
      };
      links = m.memory;
      timers = write w.timers t (some (record x { round = m.round }));
    } in
    (
      set_lock w1 RwLock.free,
      del_and_add-run this t slot w w1 c (ap (λ (u : World). u.man.lock) m.world) run,
      record {
        index = m.index;
        round = m.round;
        memory = m.memory;
        inside = m.inside;
        due = m.due;
        world = ap (λ (u : World). set_lock u RwLock.free) m.world ∙ ap locked (sym c.idle);
        wheel = IsWheel-lock RwLock.free m.wheel;
      },
    )

-- A call that a check refuses changes nothing: the timer stays in its slot.
pub del_and_add-refused :
    (this t : Ptr) (slot : ℕ) (w : World)
    → w.man.lock ≡ RwLock.free
    → (this ≡ null) ⊎ (w.man.init_flag ≡ 0) ⊎ (w.man.timer_max_num ≤ w.man.cur_timer_num)
    → del_and_add this t slot w ≡ ok timer_false w
unfolding del_and_add wrlock unlock
del_and_add-refused this t slot w idle why = ground arith

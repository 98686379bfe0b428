-- ===== src/MinHeap/Fire.antt =====
-- What a round of the timer thread does to the first timer.
use simple_timer.Prelude.{
  ℕ, ◌<◌, ◌≤◌, ◌≡◌, ◌≢◌, refl, true, false, Option, none, List, ◌∷◌, arith, ne→eqb, eqb_refl,
}
use simple_timer.Prelude.Arrays.{length, get_or, length-set}
use simple_timer.Machine.{ok, fault}
use simple_timer.Machine.Ends
use simple_timer.Machine.Ends.{Ends, ends}
use simple_timer.Api.Order.{gte-less}
use simple_timer.Api.{Ptr, null, timer_true, single_shot, direct, Timespec, less, gte}
use simple_timer.MinHeap.State.{
  live, MhTimer, World, call, lock_queue, unlock_queue, load_timer, set_mutex,
}
use simple_timer.MinHeap.Worker.{Round, run_timer, requeue, expire}
use simple_timer.MinHeap.Memory.{
  timer_at, keys, IsTimer, load_slot-ok, load_timer-ok, free_timer-ok,
}
use simple_timer.MinHeap.SiftDown.{IsTimer-SameBut}
use simple_timer.MinHeap.Valid.{IsValid}
use simple_timer.MinHeap.Pop.{Popping, popped, closed_up, last_inside, pop-stale_root}

-- On a valid manager with a timer and the mutex free, a round leaves a first timer that is overdue
-- where it is: it runs nothing and changes nothing.
pub expire-overdue :
    (r : Round) (now : Timespec) (this : Ptr) {w : World} {q : List Ptr}
    → IsValid w q
    → 0 < w.man.cur_timer_num
    → w.man.mh_lock ≡ false
    → less (keys w.timers q 0) now ≡ true
    → expire r now this w ≡ ok timer_true w
unfolding expire lock_queue unlock_queue
expire-overdue r now this {w} {q} v some_timer open_mutex overdue =
    let head = v.entries.filled 0 some_timer in
    rw (
      open_mutex,
      load_slot-ok {w = set_mutex w true} v.array 0 (omega (arith, v.size, v.room)),
      ne→eqb _ _ head.ne_null,
      load_timer-ok {w = set_mutex w true} head,
      gte-less (keys w.timers q 0) now overdue,
    )

-- A one-shot timer at the head of three or more, called directly and without parameters, where the
-- last timer does not expire before the second.
pub record Shot (w : World) (q : List Ptr) (s : ℕ) : Type 0 where
  pub kind : (timer_at w.timers (get_or null q 0)).kind ≡ single_shot
  pub run_type : (timer_at w.timers (get_or null q 0)).run_type ≡ direct
  pub no_param : (timer_at w.timers (get_or null q 0)).param_len ≡ 0
  pub many : 2 ≤ s
  pub down : less (keys w.timers q s) (keys w.timers q 1) ≡ false

module _ {w : World} {q : List Ptr} {s : ℕ} {this : Ptr} (p : Popping w q s this)
    (f : Shot w q s) where
  abbrev head : Ptr
  head = get_or null q 0

  head-IsTimer : IsTimer w.timers head
  head-IsTimer = p.valid.entries.filled 0 (rw p.count (omega arith))

  abbrev shot : MhTimer
  shot = timer_at w.timers head

  -- `requeue` frees the timer, and slot 0 keeps its address.
  requeue-stale :
      (again : Option Timespec)
      → Ends
          (λ b w'.
            (b ≡ timer_true)
            × (i : ℕ) × (w' ≡ popped w q s i w'.timers)
            × (get_or null (closed_up q s i) 0 ≡ head)
            × (w'.timers head ≡ none))
          (requeue again this head w)
  unfolding requeue
  requeue-stale again =
      let (b, w', run, (done, i, pos, below, e, same, root)) =
        Ends.inv (pop-stale_root p f.many f.down) in
      let left = IsTimer-SameBut same head-IsTimer in
      let no_param : (timer_at w'.timers head).param_len ≡ 0 =
        ground (arith, same head, f.no_param, head-IsTimer.holds) in
      rw
        (
          load_timer-ok {w = w} head-IsTimer,
          run,
          done,
          f.kind,
          load_timer-ok {w = w'} left,
          no_param,
          free_timer-ok {w = w'} left,
          e,
        )
        (ends (refl, i, refl, root, rw (eqb_refl head)))

-- A round on a manager whose slot 0 holds the address of a freed block.
expire-dangling :
    (r : Round) (now : Timespec) (this : Ptr) (w : World) (q : List Ptr)
    → w.man.mh_lock ≡ false
    → w.man.queue ≡ live q
    → 0 < length q
    → get_or null q 0 ≢ null
    → w.timers (get_or null q 0) ≡ none
    → expire r now this w ≡ fault
unfolding expire lock_queue load_timer
expire-dangling r now this w q open_mutex array room ne gone = rw (
  open_mutex,
  load_slot-ok {w = set_mutex w true} array 0 room,
  ne→eqb _ _ ne,
  gone,
  ne→eqb _ _ ne,
)

-- The world in which the callback has been called, under the mutex.
abbrev called : World → List Ptr → World
called w q =
    let x = timer_at w.timers (get_or null q 0) in
    record w { man = record (w.man) { mh_lock = true }; events = call x.cb x.param ∷ w.events }

-- On a valid, started manager with the mutex free and three timers or more, of which the last does
-- not expire before the second: once a round has run a one-shot timer that is called directly and
-- has no parameters, every later round reads the timer it freed.
pub expire-use_after_free :
    (r : Round) (now : Timespec) {w : World} {q : List Ptr} {s : ℕ} {this : Ptr}
    → Popping w q s this
    → Shot w q s
    → w.man.mh_lock ≡ false
    → gte (keys w.timers q 0) now ≡ true
    → Ends
        (λ b w'.
          (b ≡ timer_true)
          × (w'.events
              ≡ call
                  (timer_at w.timers (get_or null q 0)).cb
                  (timer_at w.timers (get_or null q 0)).param
                ∷ w.events)
          × ((r' : Round) (now' : Timespec) → expire r' now' this w' ≡ fault))
        (expire r now this w)
unfolding expire lock_queue unlock_queue run_timer
expire-use_after_free r now {w} {q} {s} {this} p f open_mutex due =
    let p1 : Popping (called w q) q s this = record {
      given = p.given;
      started = p.started;
      count = p.count;
      valid = record {
        array = p.valid.array;
        size = p.valid.size;
        room = p.valid.room;
        entries = p.valid.entries;
      };
    } in
    let f1 : Shot (called w q) q s = record {
      kind = f.kind;
      run_type = f.run_type;
      no_param = f.no_param;
      many = f.many;
      down = f.down;
    } in
    let (b, w', run, (done, i, e, root, gone)) = Ends.inv (requeue-stale p1 f1 r.again) in
    let t = head-IsTimer p f in
    let inside = last_inside p in
    rw
      (
        open_mutex,
        load_slot-ok {w = set_mutex w true} p.valid.array 0 (omega arith),
        ne→eqb _ _ t.ne_null,
        load_timer-ok {w = set_mutex w true} t,
        due,
        f.run_type,
        run,
        done,
        e,
      )
      (ends (
        refl,
        refl,
        λ r' now'.
            expire-dangling r' now' this _ (closed_up q s i) refl refl
              (rw (length-set, length-set) (omega arith)) (rw root t.ne_null) (rw root gone),
      ))

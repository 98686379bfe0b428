-- ===== src/Wheel/Added.antt =====
-- `ti_add` of a timer that nothing refuses, up to the tree.
use native.Mathlib.Nat.{mod-lt, div-div-eq-div-mul, mod-add-div'}
use mathlib.Core.Path.{fun_ext}
use simple_timer.Prelude.{
  ℕ, suc, ◌+◌, ◌*◌, ◌/◌, ◌%◌, ◌<◌, ◌≡◌, ◌≢◌, refl, ◌∙◌, sym, ap, true, false, Option, some, List,
  ◌∷◌, arith, ◌==◌, if◌then◌else◌, leb, ne→eqb, inl, inr, Bool-cases,
}
use simple_timer.Prelude.Arrays.{get_elem?-some}
use simple_timer.Machine.{Run, ok}
use simple_timer.Machine.Locks.{RwLock}
use simple_timer.Api.{Ptr, null, Timer, timer_true}
use simple_timer.LinkedList.{Memory}
use simple_timer.LinkedList.Ring.{has}
use simple_timer.LinkedList.Insert.{apart}
use simple_timer.IdPool.{Pool}
use simple_timer.IdPool.Find.{taken}
use simple_timer.IdPool.Turnover.{IsPool, timer_id_pop-IsPool}
use simple_timer.Wheel.State.{
  live, write, TimerInternal, Slots, Manager, World, set_lock, wrlock, pool_of, with_pool,
}
use simple_timer.Wheel.Timers.{
  AddEnv, check_timer, copied, index_of, number, enlist, enter, add_checked, add,
}
use simple_timer.Wheel.Due.{ahead, ahead-mod, Fits, index_of-ok}
use simple_timer.Wheel.Heads.{emptied, head_of-ok}
use simple_timer.Wheel.Enlist.{interval_of, IsTimer}
use simple_timer.Wheel.Abstract.{Rota, with_timer, IsWheel, IsWheel-frame}
use simple_timer.Wheel.Place.{IsWheel-enlist}
use simple_timer.Wheel.Adding.{copy_of, copy_param-ok, number-ok}

-- A call of `ti_add` that nothing refuses, and for which the system has the memory.
pub record CanAdd (env : AddEnv) (this : Ptr) (timer : Timer) (w : World) (s : Slots) (on : Rota)
    (bitmap : List ℕ) (n : ℕ) : Type 0 where
  pub here : this ≢ null
  pub idle : w.man.lock ≡ RwLock.free
  pub initialised : w.man.init_flag ≢ 0
  pub enabled : w.man.enable_flag ≢ 0
  pub room : w.man.cur_timer_num < w.man.timer_max_num
  pub legal : check_timer w.man timer ≡ timer_true
  pub fits : Fits w timer.interval
  pub node : env.node ≢ null
  pub block : env.block ≢ null
  pub bytes : List ℕ
  pub copy : copy_of timer ≡ some bytes
  pub off : (j : ℕ) → j < w.man.slot_num → has env.node ((s.base + j) ∷ on j) ≡ false
  pub held : w.man.timer_fd_bitmap ≡ live bitmap
  pub pool : IsPool (pool_of w.man bitmap)
  pub least : w.man.timer_fd_min_free ≡ suc n

-- The world with the new timer on its list, when the tree's turn comes. The lock is held.
pub record Added (env : AddEnv) (timer : Timer) (w : World) (s : Slots) (on : Rota)
    (bitmap : List ℕ) (n index : ℕ) (w' : World) : Type 0 where
  pub round : ℕ
  pub memory : Memory
  pub bytes : List ℕ
  pub ids : Pool
  pub inside : index < w.man.slot_num
  pub due :
      ahead w.man.slot_num w.man.cur_slot index + round * w.man.slot_num
      ≡ timer.interval / w.man.time_slot
  pub pool : IsPool ids
  pub was_free : taken bitmap n ≡ false
  pub bits : (m : ℕ) → taken ids.timer_fd_bitmap m ≡ (if n == m then true else taken bitmap m)
  pub copy : copy_of timer ≡ some bytes
  pub world : w' ≡ record w {
    man = record (with_pool w.man ids) { lock = RwLock.exclusive };
    timers =
        write w.timers env.node
          (some (record (copied timer env.block) { id = suc n; round = round }));
    params = write w.params env.block (some bytes);
    links = memory;
  }
  pub wheel : IsWheel w' s (with_timer (interval_of w') index env.node on)

write-write : {A : Type 0} (h : Ptr → A) (p : Ptr) (c d : A) → write (write h p c) p d ≡ write h p d
write-write h p c d =
    fun_ext λ a. elim (Bool-cases (a == p)) [ inl same ↦ rw same | inr other ↦ rw other ]

check_timer-lock :
    (m : Manager) (l : RwLock) (timer : Timer)
    → check_timer (record m { lock = l }) timer ≡ check_timer m timer
unfolding check_timer
check_timer-lock m l timer = refl

module _ (env : AddEnv) (this : Ptr) (timer : Timer) (w : World) (s : Slots) (on : Rota)
    (bitmap : List ℕ) (n : ℕ) (v : IsWheel w s on) (c : CanAdd env this timer w s on bitmap n) where
  add-checked_run : add env this timer w ≡ add_checked env timer (set_lock w RwLock.exclusive)
  unfolding add wrlock
  add-checked_run =
      let room : leb w.man.timer_max_num w.man.cur_timer_num ≡ false = ground (arith, c.room) in
      rw (
        ne→eqb this null c.here,
        c.idle,
        ne→eqb w.man.init_flag 0 c.initialised,
        ne→eqb w.man.enable_flag 0 c.enabled,
        room,
        check_timer-lock w.man RwLock.exclusive timer ∙ c.legal,
      )

  -- The world when the id of the new timer is drawn.
  abbrev allocated : World
  allocated =
      let w0 = set_lock w RwLock.exclusive in
      record w0 {
        timers = write w.timers env.node (some (copied timer env.block));
        links = write w.links env.node (some (record { next = null; prev = null }));
        params = write w.params env.block (some c.bytes);
      }

  abbrev entered : Pool → TimerInternal → Memory → World
  entered q x m = record allocated {
    man = with_pool allocated.man q;
    timers = write allocated.timers env.node (some x);
    links = m;
  }

  allocated-run :
      (i : ℕ) (q : Pool) (x : TimerInternal) (m1 m2 : Memory)
      → index_of timer.interval (set_lock w RwLock.exclusive) ≡ ok i (set_lock w RwLock.exclusive)
      → i < w.man.slot_num
      → number timer.interval env.node allocated ≡ ok tt (entered q x m1)
      → enlist (s.base + i) env.node (entered q x m1) ≡ ok tt (entered q x m2)
      → (r : Run World (Option ℕ)) → enter env i env.node (entered q x m2) ≡ r
      → add env this timer w ≡ r
  unfolding add_checked
  allocated-run i q x m1 m2 e inside numbered listed r rest =
      let w0 = set_lock w RwLock.exclusive in
      let (node, there) = get_elem?-some s.nodes i (omega (arith, v.size)) in
      add-checked_run
      ∙ rw
          (
            e,
            head_of-ok w0 s v.held i node there,
            ne→eqb env.node null c.node,
            ne→eqb env.block null c.block,
            copy_param-ok env.block timer c.bytes
                (record w0 {
                  timers = write w.timers env.node (some (copied timer env.block));
                  links = write w.links env.node (some (record { next = null; prev = null }));
                })
                c.copy,
            numbered,
            listed,
          )
          rest

  IsWheel-entered :
      (q : Pool) (x : TimerInternal) (m : Memory)
      → ((a : Ptr) → m a ≡ emptied allocated.links env.node a)
      → IsWheel (entered q x m) s on
  IsWheel-entered q x m at =
      let other : (j : ℕ)
          → j < w.man.slot_num
          → (a : Ptr) → has a ((s.base + j) ∷ on j) ≡ true
          → a ≢ env.node =
        λ j l a h e. apart env.node a ((s.base + j) ∷ on j) (c.off j l) h (sym e) in
      IsWheel-frame w (entered q x m) s on v refl refl
        (λ j l a h.
          let ne : a ≢ env.node = other j l a h in
          record {
            next = ground (arith, at a);
            prev = ground (arith, at a);
            live = ground (arith, at a);
          })
        (λ j l a h. let ne : a ≢ env.node = other j l a (ground arith) in ground arith)

  -- On a wheel, in a call of `ti_add` that nothing refuses, with memory to be had at an address
  -- that is on no list, a consistent pool whose least free id is `n + 1`, and sums and products
  -- within 32 bits, `ti_add` comes without a fault to the end that enters the timer into the tree,
  -- with the lock held. There the timer is on the list of a slot, at its front if its first timer
  -- has a longer interval and else at its end, all other lists are as they were, the steps from the
  -- current slot and the rounds times the slots are together `interval / time_slot`, the timer has
  -- the id `n + 1`, which was free and is the only one that has changed, and its parameter block
  -- has the caller's bytes.
  pub add-Added :
      (w' : World) × (i : ℕ) × (add env this timer w ≡ enter env i env.node w')
      × Added env timer w s on bitmap n i w'
  add-Added =
      let turn = w.man.slot_num in
      let d = timer.interval / w.man.time_slot in
      let i = (w.man.cur_slot + d) % turn in
      let round = timer.interval / (w.man.time_slot * turn) in
      let k : IsTimer allocated env.node = record {
        place = c.node;
        value = copied timer env.block;
        stands = ground arith;
      } in
      let (q, popped, pool, was_free, _, bits, _) = timer_id_pop-IsPool n c.pool c.least in
      let x : TimerInternal = record (copied timer env.block) { id = suc n; round = round } in
      let (m1, numbered, at) =
        number-ok allocated timer.interval env.node k bitmap (suc n) q c.held popped c.fits
          (ground arith) in
      let w5 = entered q x m1 in
      let v5 = IsWheel-entered q x m1 at in
      let inside : i < turn = mod-lt _ c.fits.slots in
      let (m2, listed, v6) =
        IsWheel-enlist w5 s on i env.node v5 inside
          (record { off = c.off; live = ground (arith, at env.node) })
          (record { place = c.node; value = x; stands = ground arith }) in
      (
        entered q x m2,
        i,
        allocated-run i q x m1 m2 (index_of-ok (set_lock w RwLock.exclusive) timer.interval c.fits)
            inside numbered listed (enter env i env.node (entered q x m2)) refl,
        record {
          round = round;
          memory = m2;
          bytes = c.bytes;
          ids = q;
          inside = inside;
          due =
              rw
                (
                  ahead-mod turn w.man.cur_slot d c.fits.inside,
                  sym (div-div-eq-div-mul timer.interval w.man.time_slot turn),
                )
                (mod-add-div' d turn);
          pool = pool;
          was_free = was_free;
          bits = bits;
          copy = c.copy;
          world =
              ap (λ (ts : Ptr → Option TimerInternal). record (entered q x m2) { timers = ts })
                (write-write w.timers env.node (some (copied timer env.block)) (some x));
          wheel = v6;
        },
      )

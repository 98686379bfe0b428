-- ===== src/Wheel/Deleted.antt =====
-- `ti_del` of one timer, by its id.
use simple_timer.Prelude.{
  ℕ, suc, ◌+◌, ◌*◌, ◌<◌, ◌≤◌, ◌≡◌, ◌≢◌, ◌⊎◌, refl, sym, ap, true, false, none, some, List, ◌∷◌,
  ◌++◌, arith, ◌==◌, if◌then◌else◌, ne→eqb,
}
use simple_timer.Machine.{ok}
use simple_timer.Machine.Locks.{RwLock}
use simple_timer.Api.{Ptr, null, timer_true}
use simple_timer.LinkedList.{Memory, list_del}
use simple_timer.LinkedList.Ring.{has}
use simple_timer.LinkedList.Insert.{apart}
use simple_timer.RbTree
use simple_timer.RbTree.{RbNode, Store, search}
use simple_timer.RbTree.Erase.{erase}
use simple_timer.RbTree.Shape.{Shape, ptr, entries}
use simple_timer.RbTree.Ascending.{lookup}
use simple_timer.RbTree.Descent.{size}
use simple_timer.RbTree.Grow.{IsRbTree, search-lookup}
use simple_timer.RbTree.Shrink.{Erased, erase-Erased}
use simple_timer.IdPool.{Pool, bitmap_bytes, timer_id_push}
use simple_timer.IdPool.Find.{taken}
use simple_timer.IdPool.Turnover.{IsPool, timer_id_push-IsPool}
use simple_timer.Wheel.State.{
  live, write, dec, TimerInternal, Slots, World, set_lock, wrlock, unlock, on_pool, pool_of,
  with_pool,
}
use simple_timer.Wheel.Deletion.{del_found, del}
use simple_timer.Wheel.Abstract.{Rota, without, IsWheel, IsWheel-frame, IsWheel-list_del}
use simple_timer.Wheel.Freeing.{params_after, stands, release_timer-released}

-- The timer `t` with the id `n + 1` on the list of a slot, its node in the tree, and a pool of ids.
pub record CanDelete (this : Ptr) (w : World) (tree : Shape) (bitmap : List ℕ) (n : ℕ) (t : Ptr)
    (x : TimerInternal) : Type 0 where
  pub here : this ≢ null
  pub idle : w.man.lock ≡ RwLock.free
  pub planted : IsRbTree w.tree tree
  pub root : w.man.rb_root ≡ ptr tree
  pub known : lookup (suc n) (entries tree) ≢ null
  pub leaf : RbNode
  pub leads : w.tree (lookup (suc n) (entries tree)) ≡ some leaf
  pub datum : leaf.datum ≡ t
  pub held : w.man.timer_fd_bitmap ≡ live bitmap
  pub pool : IsPool (pool_of w.man bitmap)
  pub inside : n < bitmap_bytes w.man.timer_max_num * 8
  pub some_free : w.man.timer_fd_min_free ≢ 0
  pub place : t ≢ null
  pub timer : w.timers t ≡ some x
  pub block : (x.param_len ≡ 0) ⊎ (x.param ≡ null) ⊎ (stands (w.params x.param) ≡ true)

-- The world when the timer and its id are gone. The lock is free.
pub record Deleted (w : World) (s : Slots) (on : Rota) (tree : Shape) (bitmap : List ℕ) (n : ℕ)
    (t : Ptr) (x : TimerInternal) (w' : World) : Type 0 where
  pub memory : Memory
  pub ids : Pool
  pub rest : Shape
  pub store : Store
  pub world : w' ≡ record w {
    man = record (with_pool w.man ids) {
      cur_timer_num = dec w.man.cur_timer_num;
      rb_root = ptr rest;
    };
    timers = write w.timers t none;
    params = params_after x w.params;
    links = write memory t none;
    tree = store;
  }
  pub wheel : IsWheel w' s on
  pub pool : IsPool ids
  pub bits : (m : ℕ) → taken ids.timer_fd_bitmap m ≡ (if n == m then false else taken bitmap m)
  pub erased : Erased w.tree tree (suc n) store rest

module _ (this : Ptr) (w : World) (k : ℕ) (tree : Shape) (bitmap : List ℕ) (n : ℕ) (t : Ptr)
    (x : TimerInternal) (c : CanDelete this w tree bitmap n t x) (enough : size tree ≤ k) where
  abbrev gone : Memory → Pool → Ptr → Store → RwLock → World
  gone m q root store l = record w {
    man = record (with_pool w.man q) {
      lock = l;
      cur_timer_num = dec w.man.cur_timer_num;
      rb_root = root;
    };
    timers = write w.timers t none;
    params = params_after x w.params;
    links = write m t none;
    tree = store;
  }

  del-run :
      (m : Memory) (q : Pool) (root : Ptr) (store : Store)
      → list_del t w.links ≡ ok tt m
      → timer_id_push (suc n) (pool_of w.man bitmap) ≡ ok tt q
      → erase (k + 2) (suc n) w.man.rb_root w.tree ≡ ok root store
      → del (k + 2) this (suc n) w ≡ ok timer_true (gone m q root store RwLock.free)
  unfolding del del_found wrlock unlock on_pool RbTree.load
  del-run m q root store unlinks pushed erases =
      let w0 = set_lock w RwLock.exclusive in
      let given : (suc n == 0) ≡ false = ground arith in
      let w1 : World = record w0 { links = m } in
      let a = lookup (suc n) (entries tree) in
      let found : search (k + 2) (suc n) w.man.rb_root w.tree ≡ ok a w.tree =
        rw c.root (search-lookup w.tree (k + 2) (suc n) tree c.planted (omega arith)) in
      rw (
        ne→eqb this null c.here,
        c.idle,
        given,
        found,
        ne→eqb (lookup (suc n) (entries tree)) null c.known,
        c.leads,
        c.datum,
        unlinks,
        release_timer-released w1 t x c.place c.timer c.block,
        c.held,
        pushed,
        erases,
      )

  IsWheel-gone :
      (s : Slots) (on : Rota) (m : Memory) (q : Pool) (root : Ptr) (store : Store) (l : RwLock)
      → IsWheel (record w { links = m }) s on
      → ((j : ℕ) → j < w.man.slot_num → has t ((s.base + j) ∷ on j) ≡ false)
      → IsWheel (gone m q root store l) s on
  IsWheel-gone s on m q root store l v off =
      let other : (j : ℕ)
          → j < w.man.slot_num
          → (a : Ptr) → has a ((s.base + j) ∷ on j) ≡ true
          → a ≢ t =
        λ j b a h e. apart t a ((s.base + j) ∷ on j) (off j b) h (sym e) in
      IsWheel-frame (record w { links = m }) (gone m q root store l) s on v refl refl
        (λ j b a h.
          let ne : a ≢ t = other j b a h in
          record { next = ground arith; prev = ground arith; live = ground arith })
        (λ j b a h. let ne : a ≢ t = other j b a (ground arith) in ground arith)

  -- On a wheel, with no lock held, with a red-black tree in memory with ascending keys in which the
  -- id `n + 1` leads to a live timer on the list of a slot, an id within the bitmap of a consistent
  -- pool that has a free id, a parameter block, if the timer has one to free, that is live, and
  -- fuel for two rounds more than the tree has nodes, `ti_del` of the id succeeds with the lock
  -- free. The timer is off its list, which keeps the others in their order, as all other lists do;
  -- it and its parameter block are freed; the id is free and no other has changed; the tree is a
  -- red-black tree of the other entries, and the node is freed; the count of timers is one less.
  -- The counts of the slots and all else are as they were.
  pub del-Deleted :
      (s : Slots) (on : Rota) (slot : ℕ) (xs ys : List Ptr)
      → IsWheel w s on
      → slot < w.man.slot_num
      → on slot ≡ xs ++ t ∷ ys
      → (w' : World) × (del (k + 2) this (suc n) w ≡ ok timer_true w')
        × Deleted w s (without slot (xs ++ ys) on) tree bitmap n t x w'
  del-Deleted s on slot xs ys v inside listed =
      let (m, unlinks, wheel, off) = IsWheel-list_del w s on slot t xs ys v inside listed in
      let (q, pushed, pool, bits, _, _) = timer_id_push-IsPool n c.pool c.inside c.some_free in
      let (rest, store, erases, erased) = erase-Erased w.tree k (suc n) tree c.planted enough in
      (
        gone m q (ptr rest) store RwLock.free,
        del-run m q (ptr rest) store unlinks pushed (rw c.root erases),
        record {
          memory = m;
          ids = q;
          rest = rest;
          store = store;
          world = ap (gone m q (ptr rest) store) (sym c.idle);
          wheel =
              IsWheel-gone s (without slot (xs ++ ys) on) m q (ptr rest) store RwLock.free wheel
                off.off;
          pool = pool;
          bits = bits;
          erased = erased;
        },
      )

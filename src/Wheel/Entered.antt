-- ===== src/Wheel/Entered.antt =====
-- The end of `ti_add`: the timer's node in the tree.
use simple_timer.Prelude.{
  ℕ, suc, ◌+◌, ◌*◌, ◌/◌, ◌<◌, ◌≤◌, ◌≡◌, ◌≢◌, refl, ◌∙◌, ap, some, List, arith,
}
use simple_timer.Machine.{ok}
use simple_timer.Machine.Locks.{RwLock}
use simple_timer.Api.{Ptr, null, Timer}
use simple_timer.RbTree.{Store, insert}
use simple_timer.RbTree.Shape.{Entry, Shape, ptr, copies, entries}
use simple_timer.RbTree.Ascending.{insert_entry}
use simple_timer.RbTree.Descent.{size}
use simple_timer.RbTree.Grow.{IsRbTree, insert-Inserted}
use simple_timer.Wheel.State.{live, inc, TimerInternal, Slots, World, unlock}
use simple_timer.Wheel.Timers.{AddEnv, copied, enter, add}
use simple_timer.Wheel.Due.{ahead}
use simple_timer.Wheel.Heads.{with_nodes}
use simple_timer.Wheel.Enlist.{interval_of, IsTimer, load_timer-ok}
use simple_timer.Wheel.Abstract.{Rota, with_timer, IsWheel, IsWheel-frame}
use simple_timer.Wheel.Place.{counted, change_count-ok, IsWheel-counted}
use simple_timer.Wheel.Added.{CanAdd, Added, add-Added}

-- The world after `enter`, with this tree.
abbrev pub rooted : AddEnv → ℕ → World → Slots → Ptr → Store → World
rooted env index w s root tree = record w {
  man = record (w.man) {
    lock = RwLock.free;
    rb_root = root;
    slots = live (record s { nodes = counted inc index s.nodes });
    cur_timer_num = inc w.man.cur_timer_num;
  };
  tree = tree;
}

module _ (env : AddEnv) (index : ℕ) (t : Ptr) (w : World) (s : Slots) (on : Rota)
    (v : IsWheel w s on) (inside : index < w.man.slot_num) (k : IsTimer w t) where
  enter-run :
      (root : Ptr) (tree : Store)
      → w.man.lock ≡ RwLock.exclusive
      → insert env.tree_node env.fuel k.value.id t w.man.rb_root w.tree ≡ ok (some root) tree
      → enter env index t w ≡ ok (some k.value.id) (rooted env index w s root tree)
  unfolding enter unlock
  enter-run root tree held run =
      let w1 : World = record w { man = record (w.man) { rb_root = root }; tree = tree } in
      let v1 : IsWheel w1 s on =
        IsWheel-frame w w1 s on v refl refl
          (λ j l a h. record { next = refl; prev = refl; live = refl }) (λ j l a h. refl) in
      rw (load_timer-ok w t k, run, change_count-ok w1 s on v1 index inside inc, held)

  IsWheel-rooted :
      (root : Ptr) (tree : Store)
      → IsWheel (rooted env index w s root tree) (record s { nodes = counted inc index s.nodes }) on
  IsWheel-rooted root tree =
      let v1 = IsWheel-counted w s on v index inside inc in
      IsWheel-frame (with_nodes w s v.held (counted inc index s.nodes))
        (rooted env index w s root tree) (record s { nodes = counted inc index s.nodes }) on v1 refl
        refl (λ j l a h. record { next = refl; prev = refl; live = refl }) (λ j l a h. refl)

-- `ti_add` has given the timer the id `n + 1` and put it on the list of the slot `index`, and the
-- tree `t` has it in its place by the id. The lock is free.
pub record Joined (env : AddEnv) (timer : Timer) (w : World) (s : Slots) (on : Rota) (t : Shape)
    (n index : ℕ) (w' : World) : Type 0 where
  pub round : ℕ
  pub idle : w'.man.lock ≡ RwLock.free
  pub inside : index < w.man.slot_num
  pub due :
      ahead w.man.slot_num w.man.cur_slot index + round * w.man.slot_num
      ≡ timer.interval / w.man.time_slot
  pub number : w'.man.cur_timer_num ≡ inc w.man.cur_timer_num
  pub stands :
      w'.timers env.node ≡ some (record (copied timer env.block) { id = suc n; round = round })
  pub tree : Shape
  pub root : w'.man.rb_root ≡ ptr tree
  pub planted : IsRbTree w'.tree tree
  pub in_tree :
      entries tree
      ≡ insert_entry (record { at = env.tree_node; key = suc n; datum = env.node }) (entries t)
  pub wheel :
      IsWheel w'
        (record s { nodes = counted inc index s.nodes })
        (with_timer (interval_of w') index env.node on)

-- The memory for the node of the tree, and fuel for the tree.
pub record CanPlant (env : AddEnv) (w : World) (t : Shape) : Type 0 where
  pub planted : IsRbTree w.tree t
  pub root : w.man.rb_root ≡ ptr t
  pub there : env.tree_node ≢ null
  pub new : copies env.tree_node t ≡ 0
  pub spare : ℕ
  pub enough : size t ≤ spare
  pub fuel : env.fuel ≡ spare + 2

-- On a wheel, in a call of `ti_add` that nothing refuses, with memory to be had at an address that
-- is on no list and for a node that is not in the tree, a consistent pool whose least free id is `n
-- + 1`, a red-black tree in memory with ascending keys, fuel for two rounds more than it has nodes,
-- and sums and products within 32 bits, `ti_add` succeeds and returns that id, with the lock free.
-- The timer is on the list of a slot, at its front if its first timer has a longer interval and
-- else at its end, and all other lists are as they were; the steps from the current slot and the
-- rounds times the slots are together `interval / time_slot`; the id was free and is the only one
-- that has changed; the parameter block has the caller's bytes; the counts of the slot and of the
-- manager are one more; and the tree is a red-black tree of the old entries and, in its place by
-- the id unless the id was there, the one of the timer.
pub add-Joined :
    (env : AddEnv) (this : Ptr) (timer : Timer) (w : World) (s : Slots) (on : Rota) (t : Shape)
    (bitmap : List ℕ) (n : ℕ)
    → IsWheel w s on
    → CanAdd env this timer w s on bitmap n
    → CanPlant env w t
    → (w1 : World) × (w' : World) × (i : ℕ) × (add env this timer w ≡ ok (some (suc n)) w')
      × Added env timer w s on bitmap n i w1
      × (w' ≡ rooted env i w1 s w'.man.rb_root w'.tree)
      × Joined env timer w s on t n i w'
add-Joined env this timer w s on t bitmap n v c g =
    let (w1, i, run, a) = add-Added env this timer w s on bitmap n v c in
    let x : TimerInternal = record (copied timer env.block) { id = suc n; round = a.round } in
    let k : IsTimer w1 env.node = record {
      place = c.node;
      value = x;
      stands = ap (λ (u : World). u.timers env.node) a.world ∙ ground arith;
    } in
    let count : w1.man.slot_num ≡ w.man.slot_num = ap (λ (u : World). u.man.slot_num) a.world in
    let inside : i < w1.man.slot_num = rw count a.inside in
    let on1 = with_timer (interval_of w1) i env.node on in
    let e : Entry = record { at = env.tree_node; key = suc n; datum = env.node } in
    let same : w1.tree ≡ w.tree = ap (λ (u : World). u.tree) a.world in
    let (t', tree, grown, placed) =
      insert-Inserted w1.tree g.spare e t (rw same g.planted) g.there g.new g.enough in
    let root : w1.man.rb_root ≡ ptr t = ap (λ (u : World). u.man.rb_root) a.world ∙ g.root in
    let held : w1.man.lock ≡ RwLock.exclusive = ap (λ (u : World). u.man.lock) a.world in
    (
      w1,
      rooted env i w1 s (ptr t') tree,
      i,
      run
          ∙ enter-run env i env.node w1 s on1 a.wheel inside k (ptr t') tree held
              (rw (g.fuel, root) grown),
      a,
      refl,
      record {
        round = a.round;
        idle = refl;
        inside = a.inside;
        due = a.due;
        number = ap (λ (u : World). inc u.man.cur_timer_num) a.world;
        stands = k.stands;
        tree = t';
        root = refl;
        planted = placed.whole;
        in_tree = placed.order;
        wheel = IsWheel-rooted env i env.node w1 s on1 a.wheel inside k (ptr t') tree;
      },
    )

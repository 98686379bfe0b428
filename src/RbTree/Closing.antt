-- ===== src/RbTree/Closing.antt =====
-- The steps of `rb_erase` of src/rbtree.c: a node is taken out and freed, and the gap is closed.
use simple_timer.Prelude.{
  ℕ, suc, ◌<◌, ◌≤◌, ◌≡◌, ◌≢◌, sym, ap, some, none, ◌++◌, ◌||◌, arith, ◌==◌, if◌then◌else◌, ne→eqb,
}
use simple_timer.Machine.{ok, pure}
use simple_timer.Api.{Ptr, null}
use simple_timer.RbTree.{Color, RbNode, Store, Act, is_red, load}
use simple_timer.RbTree.Erase.{Gap, unlink_outer, unlink_inner, release, erase_rebalance}
use simple_timer.RbTree.Shape.{
  Entry, Shape, leaf, node, Way, ptr, fill, above, root_of, copies, Stands, entries, ptr-fill,
  Tied-split,
}
use simple_timer.RbTree.Frame.{Tied-frame}
use simple_timer.RbTree.Paint.{root_color}
use simple_timer.RbTree.Balance.{
  raise, height, IsEven, IsCalm, IsAround, IsRedBlack, IsRedBlack-Within, blacken-IsRedBlack,
}
use simple_timer.RbTree.Rounds.{Rebalanced}
use simple_timer.RbTree.Rebalance.{depth}
use simple_timer.RbTree.Descent.{size}
use simple_timer.RbTree.Short.{fill-IsRedBlack}
use simple_timer.RbTree.Mend.{Leads-refl}
use simple_timer.RbTree.Fill.{fill-Rebalanced}
use simple_timer.RbTree.Successor.{least}
use simple_timer.RbTree.Unlink.{Unlinked, unlink_outer-right, unlink_outer-left}
use simple_timer.RbTree.Inner.{unlink_inner-Unlinked}

abbrev pub unlink : (fuel : ℕ) (old left right root : Ptr) → Act Gap
unlink fuel old left right root =
    if left == null || right == null then unlink_outer old root else unlink_inner fuel old root

pub unlink-Unlinked :
    (m : Store) (fuel : ℕ) (z : Way) (c : Color) (x : Entry) (l r : Shape)
    → Stands m (fill z (node c x l r))
    → IsRedBlack (fill z (node c x l r))
    → size r < fuel
    → Unlinked m z
        (node c x l r)
        x
        (entries l ++ entries r)
        (unlink fuel x.at (ptr l) (ptr r) (root_of z x.at))
unlink-Unlinked m fuel z c x leaf r h balanced enough =
    unlink_outer-right m z c x r h (IsRedBlack-Within z (node c x leaf r) balanced)
unlink-Unlinked m fuel z c x (node cl el ll lr) leaf h balanced enough =
    let given : el.at ≢ null = (Tied-split m z (node c x (node cl el ll lr) leaf) h.tied).1.2.0 in
    rw (ne→eqb el.at null given) (
      unlink_outer-left m z c x cl el ll lr h
        (IsRedBlack-Within z (node c x (node cl el ll lr) leaf) balanced))
unlink-Unlinked m fuel z c x (node cl el ll lr) (node cr er rl rr) h balanced enough =
    let whole = node c x (node cl el ll lr) (node cr er rl rr) in
    let tied = (Tied-split m z whole h.tied).1 in
    let g = least m fuel x.at cr er rl rr tied.3 (omega (arith, enough)) in
    rw (ne→eqb el.at null tied.2.0, ne→eqb er.at null tied.3.0)
      (unlink_inner-Unlinked m fuel z c cl x el ll lr (node cr er rl rr) g h balanced)

-- The memory without a node.
abbrev pub without : Store → Ptr → Store
without m p a = if a == p then none else m a

pub release-ok :
    (m : Store) (p : Ptr) (x : RbNode) → m p ≡ some x → release p m ≡ ok tt (without m p)
unfolding release load
release-ok m p x live = rw live

pub Stands-without :
    (m : Store) (p : Ptr) (t : Shape) → Stands m t → copies p t ≡ 0 → Stands (without m p) t
Stands-without m p t h loose = record {
  tied = Tied-frame m (without m p) null t (λ a n. ground (arith, loose, n)) h.tied;
  apart = h.apart;
}

-- The end of `rb_erase`: the gap is closed.
abbrev pub mend : (fuel : ℕ) → Gap → Act Ptr
mend fuel g = if is_red g.color then pure g.root else erase_rebalance fuel g.child g.parent g.root

abbrev pub gap_of : Color → Way → Shape → Gap
gap_of c way rest = record {
  color = c;
  child = ptr rest;
  parent = above way;
  root = root_of way (ptr rest);
}

pub mend-Rebalanced :
    (m : Store) (k : ℕ) (way : Way) (rest : Shape) (c : Color)
    → Stands m (fill way rest)
    → IsEven rest
    → IsCalm c Color.black (root_color rest)
    → IsAround (raise c (height rest)) way
    → depth way ≤ k
    → Rebalanced m (fill way rest) (mend (suc (suc k)) (gap_of c way rest) m)
mend-Rebalanced m k way rest Color.red h even calm around enough = record {
  memory = m;
  tree = fill way rest;
  run = ap (λ p. ok p m) (sym (ptr-fill way rest));
  leads = Leads-refl m (fill way rest) h;
  balanced = fill-IsRedBlack way rest calm.1 even around;
}
mend-Rebalanced m k way rest Color.black h even calm around enough =
    fill-Rebalanced way k enough m rest h
      (record { even = (blacken-IsRedBlack rest even).1; around = around })

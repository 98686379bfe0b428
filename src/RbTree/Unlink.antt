-- ===== src/RbTree/Unlink.antt =====
-- How `rb_erase` of src/rbtree.c takes a node out of a tree in memory.
use mathlib.Core.Path.{subst}
use mathlib.Core.List.{append-nil}
use simple_timer.Prelude.{◌+◌, ◌≤◌, ◌≡◌, refl, sym, ◌∙◌, some, List, [], ◌++◌, arith, ne→eqb}
use simple_timer.Machine.{ok}
use simple_timer.Api.{Ptr, null}
use simple_timer.RbTree.{Color, RbNode, Store, Act, load}
use simple_timer.RbTree.Erase.{Gap, unlink_outer}
use simple_timer.RbTree.Shape.{
  Entry, Shape, leaf, node, Way, ptr, fill, above, root_of, cell, hit, copies, copies_up, Stands,
  entries, copies-fill, Tied-split,
}
use simple_timer.RbTree.Frame.{hit-same}
use simple_timer.RbTree.Paint.{root_color}
use simple_timer.RbTree.Balance.{raise, height, IsEven, IsCalm, IsAround, Within}
use simple_timer.RbTree.Cut.{cut}

-- The gap that the node leaves: where it is, what hangs there, and the colour that is lost.
pub record Unlinked (m : Store) (z : Way) (t : Shape) (x : Entry) (others : List Entry)
    (act : Act Gap) : Type 0 where
  pub way : Way
  pub rest : Shape
  pub color : Color
  pub memory : Store
  pub run :
      act m
      ≡ ok
          (record {
            color = color;
            child = ptr rest;
            parent = above way;
            root = root_of way (ptr rest);
          })
          memory
  pub stands : Stands memory (fill way rest)
  pub loose : copies x.at (fill way rest) ≡ 0
  pub last : RbNode
  pub live : memory x.at ≡ some last
  pub tree : Shape
  pub same : fill way rest ≡ fill z tree
  pub order : entries tree ≡ others
  pub kept : (a : Ptr) → copies a (fill z t) ≡ 0 → memory a ≡ m a
  pub even : IsEven rest
  pub calm : IsCalm color Color.black (root_color rest)
  pub around : IsAround (raise color (height rest)) way

IsCalm-first : (c d : Color) → IsCalm c d Color.black → IsCalm c Color.black d
IsCalm-first Color.red d h = (h.1, h.0)
IsCalm-first Color.black d h = tt

module _ (m : Store) (z : Way) (c : Color) (x : Entry) where
  -- A node with no left child.
  pub unlink_outer-right :
      (r : Shape)
      → Stands m (fill z (node c x leaf r))
      → Within z (node c x leaf r)
      → Unlinked m z (node c x leaf r) x (entries r) (unlink_outer x.at (root_of z x.at))
  unfolding unlink_outer load
  unlink_outer-right r h w =
      let (out, (given, live, _, low)) = Tied-split m z (node c x leaf r) h.tied in
      let once : (a : Ptr) → copies_up a z + (hit a x.at + copies a r) ≤ 1 =
        λ a. omega (arith, h.apart a, copies-fill a z (node c x leaf r)) in
      let u = cut m z x.at x.at r given once out low in
      let high = once x.at in
      let self = hit-same x.at in
      let loose : copies x.at (fill z r) ≡ 0 = omega (arith, copies-fill x.at z r) in
      let even = w.even in
      record {
        way = z;
        rest = r;
        color = c;
        memory = u.memory;
        run = rw (live, u.adopts, u.replaces);
        stands = u.stands;
        loose = loose;
        last = cell c x null (ptr r) (above z);
        live = u.kept x.at loose ∙ live;
        tree = r;
        same = refl;
        order = refl;
        kept = λ a n.
            u.kept a (omega (arith, n, copies-fill a z r, copies-fill a z (node c x leaf r)));
        even = even.3;
        calm = even.1;
        around = subst (λ n. IsAround (raise c n) z) even.0 w.around;
      }

  -- A node with a left child only.
  pub unlink_outer-left :
      (cl : Color) (el : Entry) (ll lr : Shape)
      → Stands m (fill z (node c x (node cl el ll lr) leaf))
      → Within z (node c x (node cl el ll lr) leaf)
      → Unlinked m z
          (node c x (node cl el ll lr) leaf)
          x
          (entries (node cl el ll lr) ++ [])
          (unlink_outer x.at (root_of z x.at))
  unfolding unlink_outer load
  unlink_outer-left cl el ll lr h w =
      let l = node cl el ll lr in
      let (out, (given, live, low, _)) = Tied-split m z (node c x l leaf) h.tied in
      let once : (a : Ptr) → copies_up a z + (hit a x.at + copies a l) ≤ 1 =
        λ a. omega (arith, h.apart a, copies-fill a z (node c x l leaf)) in
      let u = cut m z x.at x.at l given once out low in
      let high = once x.at in
      let self = hit-same x.at in
      let loose : copies x.at (fill z l) ≡ 0 = omega (arith, copies-fill x.at z l) in
      let even = w.even in
      record {
        way = z;
        rest = l;
        color = c;
        memory = u.memory;
        run = rw (live, ne→eqb el.at null low.0) (rw (u.adopts, u.replaces));
        stands = u.stands;
        loose = loose;
        last = cell c x el.at null (above z);
        live = u.kept x.at loose ∙ live;
        tree = l;
        same = refl;
        order = sym (append-nil (entries l));
        kept = λ a n.
            u.kept a (omega (arith, n, copies-fill a z l, copies-fill a z (node c x l leaf)));
        even = even.2;
        calm = IsCalm-first c (root_color l) even.1;
        around = w.around;
      }

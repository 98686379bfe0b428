-- ===== src/RbTree/Inner.antt =====
-- How `rb_erase` of src/rbtree.c takes out a node with two children.
use mathlib.Core.Path.{subst}
use simple_timer.Prelude.{ℕ, ◌+◌, ◌≡◌, ◌≢◌, refl, sym, ap, ◌∙◌, some, ◌++◌, arith}
use simple_timer.Api.{Ptr, null}
use simple_timer.RbTree.{Color, Store}
use simple_timer.RbTree.Erase.{unlink_inner}
use simple_timer.RbTree.Shape.{
  Entry, Shape, leaf, node, Way, in_right, ptr, fill, above, root_of, cell, hit, copies, copies_up,
  Stands, entries, copies-fill, Tied-split,
}
use simple_timer.RbTree.Frame.{hit-same}
use simple_timer.RbTree.Paint.{root_color, here}
use simple_timer.RbTree.Balance.{
  raise, height, IsEven, IsCalm, IsAround, IsRedBlack, IsRedBlack-Within,
}
use simple_timer.RbTree.Cut.{Cut, cut}
use simple_timer.RbTree.Successor.{
  under, under-fill, root_under, copies_up-under, Least, IsAround-other,
}
use simple_timer.RbTree.Swap.{Seated, seat-Seated}
use simple_timer.RbTree.Unlink.{Unlinked}
use simple_timer.RbTree.Exchange.{above_other, inner-run}

module _ (m : Store) (fuel : ℕ) (z : Way) (c cl : Color) (x el : Entry) (ll lr r : Shape)
    (g : Least m fuel r) where
  abbrev sub : Shape
  sub = node cl el ll lr

  -- The ways to the successor, before and after the exchange, and what is left of its subtree.
  abbrev way_old : Way
  way_old = under g.way (in_right c x sub z)

  abbrev way_new : Way
  way_new = under g.way (in_right c g.entry sub z)

  abbrev left_over : Shape
  left_over = fill g.way g.rest

  total :
      (a : Ptr)
      → copies a (fill z (node c x sub r))
        ≡ copies_up a z
          + hit a x.at
          + copies a sub
          + copies_up a g.way
          + hit a g.entry.at
          + copies a g.rest
  total a = omega (
    arith,
    copies-fill a z (node c x sub r),
    ap (copies a) g.old,
    copies-fill a g.way (node g.color g.entry leaf g.rest),
  )

  total_cut :
      (a : Ptr)
      → copies a (fill way_old g.rest)
        ≡ copies_up a z + hit a x.at + copies a sub + copies_up a g.way + copies a g.rest
  total_cut a =
      omega (arith, copies-fill a way_old g.rest, copies_up-under a g.way (in_right c x sub z))

  total_new :
      (a : Ptr)
      → copies a (fill way_new g.rest)
        ≡ copies_up a z + hit a g.entry.at + copies a sub + copies_up a g.way + copies a g.rest
  total_new a =
      omega
        (arith, copies-fill a way_new g.rest, copies_up-under a g.way (in_right c g.entry sub z))

  successor-Cut :
      Stands m (fill z (node c x sub r))
      → (g.entry.at ≢ null)
        × (m g.entry.at ≡ some (cell g.color g.entry null (ptr g.rest) (above way_old)))
        × Cut m way_old g.entry.at g.rest
  successor-Cut h =
      let old : fill way_old (node g.color g.entry leaf g.rest) ≡ fill z (node c x sub r) =
        under-fill g.way (in_right c x sub z) (node g.color g.entry leaf g.rest)
        ∙ ap (λ t. fill z (node c x sub t)) g.old in
      let h' : Stands m (fill way_old (node g.color g.entry leaf g.rest)) =
        subst (Stands m) (sym old) h in
      let (out, (given, live, _, low)) =
        Tied-split m way_old (node g.color g.entry leaf g.rest) h'.tied in
      (
        given,
        live,
        cut m way_old g.entry.at g.entry.at g.rest given
            (λ a.
              omega (arith, h'.apart a, copies-fill a way_old (node g.color g.entry leaf g.rest)))
            out low,
      )

  -- The colours around the successor.
  within_new :
      IsRedBlack (fill z (node c x sub r))
      → IsEven g.rest
        × IsCalm g.color Color.black (root_color g.rest)
        × IsAround (raise g.color (height g.rest)) way_new
  within_new balanced =
      let old : fill way_old (node g.color g.entry leaf g.rest) ≡ fill z (node c x sub r) =
        under-fill g.way (in_right c x sub z) (node g.color g.entry leaf g.rest)
        ∙ ap (λ t. fill z (node c x sub t)) g.old in
      let w =
        IsRedBlack-Within way_old (node g.color g.entry leaf g.rest)
          (subst IsRedBlack (sym old) balanced) in
      (
        w.even.3,
        w.even.1,
        IsAround-other g.way z c x g.entry sub (raise g.color (height g.rest))
            (subst (λ n. IsAround (raise g.color n) way_old) w.even.0 w.around),
      )

  exchange :
      Stands m (fill z (node c x sub r))
      → (u : Cut m way_old g.entry.at g.rest) → g.entry.at ≢ null
      → Stands u.memory (fill z (node c x sub left_over))
        × Seated u.memory z c x g.entry sub left_over
  exchange h u given =
      let e : fill way_old g.rest ≡ fill z (node c x sub left_over) =
        under-fill g.way (in_right c x sub z) g.rest in
      let stands = subst (Stands u.memory) e u.stands in
      let high = h.apart g.entry.at in
      let self = hit-same g.entry.at in
      let loose : copies g.entry.at (fill z (node c x sub left_over)) ≡ 0 =
        omega (arith, ap (copies g.entry.at) e, total_cut g.entry.at, total g.entry.at) in
      (stands, seat-Seated u.memory z c cl x g.entry el ll lr left_over stands given loose)

  -- The gap is where the successor was.
  pub unlink_inner-Unlinked :
      Stands m (fill z (node c x sub r))
      → IsRedBlack (fill z (node c x sub r))
      → Unlinked m z
          (node c x sub r)
          x
          (entries sub ++ entries r)
          (unlink_inner fuel x.at (root_of z x.at))
  unlink_inner-Unlinked h balanced =
      let n = g.entry in
      let (given, live, u) = successor-Cut h in
      let (stands, s) = exchange h u given in
      let high = h.apart x.at in
      let self = hit-same x.at in
      let low = h.apart n.at in
      let self_n = hit-same n.at in
      let all = total x.at in
      let all_n = total n.at in
      let new : fill way_new g.rest ≡ fill z (node c n sub left_over) =
        under-fill g.way (in_right c n sub z) g.rest in
      let live2 : u.memory n.at ≡ some (cell g.color n null (ptr g.rest) (above way_old)) =
        u.kept n.at (omega (arith, total_cut n.at)) ∙ live in
      let here2 = (here u.memory z c x sub left_over stands).live in
      let parent = above_other g.way z c x n sub (omega arith) in
      let (even, calm, around) = within_new balanced in
      record {
        way = way_new;
        rest = g.rest;
        color = g.color;
        memory = s.memory;
        run =
            rw (sym parent, root_under g.way (in_right c n sub z) (ptr g.rest))
              (inner-run m u.memory fuel z way_old c cl g.color x n el ll lr r left_over g.rest u
                refl (here m z c x sub r h).live g.run live
                (root_under g.way (in_right c x sub z) (ptr g.rest))
                (root_under g.way (in_right c x sub z) n.at) here2 live2 s);
        stands = subst (Stands s.memory) (sym new) s.stands;
        loose = omega (arith, total_new x.at);
        last = cell c x el.at (ptr left_over) (above z);
        live = s.live ∙ here2;
        tree = node c n sub left_over;
        same = new;
        order = ap (λ xs. entries sub ++ xs) (sym g.order);
        kept = λ a o.
            let none = total a in
            let none_cut = total_cut a in
            let e = ap (copies a) (under-fill g.way (in_right c x sub z) g.rest) in
            s.kept a (omega (arith, o)) (omega (arith, o)) ∙ u.kept a (omega (arith, o));
        even = even;
        calm = calm;
        around = around;
      }

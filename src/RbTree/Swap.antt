-- ===== src/RbTree/Swap.antt =====
-- How `rb_erase` of src/rbtree.c puts the successor, already cut out, in the place of a node.
use simple_timer.Prelude.{◌+◌, ◌≤◌, ◌≡◌, ◌≢◌, ◌∙◌, arith, ◌==◌, if◌then◌else◌, ne→eqb}
use simple_timer.Machine.{ok, pure}
use simple_timer.Api.{Ptr, null}
use simple_timer.RbTree.{Color, Store, set_parent}
use simple_timer.RbTree.Erase.{replace_child}
use simple_timer.RbTree.Shape.{
  Entry, Shape, node, Way, ptr, fill, above, root_of, cell, hit, copies, copies_up, Stands,
  copies-fill, Tied-split, Tied-join,
}
use simple_timer.RbTree.Frame.{
  put, TiedUp-put, TiedUp-frame, Tied-frame, adopt-ok, hit-same, hit-off, hit_once, put-other,
  put-same,
}
use simple_timer.RbTree.Cut.{replace_child-ok}

pub record Seated (m : Store) (z : Way) (c : Color) (x n : Entry) (l r : Shape) : Type 0 where
  pub replaced : Store
  pub adopted : Store
  pub memory : Store
  pub replaces :
      replace_child x.at n.at
        (above z)
        (root_of z x.at)
        (put m n.at (cell c n (ptr l) (ptr r) (above z)))
      ≡ ok (root_of z n.at) replaced
  pub left : set_parent (ptr l) n.at replaced ≡ ok tt adopted
  pub right : (if ptr r == null then pure tt else set_parent (ptr r) n.at) adopted ≡ ok tt memory
  pub stands : Stands memory (fill z (node c n l r))
  pub live : memory x.at ≡ m x.at
  pub kept : (a : Ptr) → copies a (fill z (node c x l r)) ≡ 0 → hit a n.at ≡ 0 → memory a ≡ m a

module _ (m : Store) (z : Way) (c cl : Color) (x n el : Entry) (ll lr r : Shape) where
  abbrev l : Shape
  l = node cl el ll lr

  pub seat-Seated :
      Stands m (fill z (node c x l r))
      → n.at ≢ null
      → copies n.at (fill z (node c x l r)) ≡ 0
      → Seated m z c x n l r
  seat-Seated h given new =
      let (out, (given_x, here, low_l, low_r)) = Tied-split m z (node c x l r) h.tied in
      let once : (a : Ptr) → copies_up a z + copies a (node c x l r) ≤ 1 =
        λ a. omega (arith, h.apart a, copies-fill a z (node c x l r)) in
      let old = once x.at in
      let self_x = hit-same x.at in
      let self_n = hit-same n.at in
      let apart : copies_up n.at z + copies n.at (node c x l r) ≡ 0 =
        omega (arith, copies-fill n.at z (node c x l r)) in
      let v = cell c n (ptr l) (ptr r) (above z) in
      let m3 = put m n.at v in
      let (m4, run4, out4, kept4) =
        replace_child-ok m3 z n.at x.at given_x (omega arith) (λ a. omega (arith, once a))
          (TiedUp-put m n.at v z x.at (omega arith) out) in
      let from4 : (a : Ptr) → hit a n.at + copies_up a z ≡ 0 → m4 a ≡ m a =
        λ a o. kept4 a (omega (arith, o)) ∙ put-other m n.at v a (omega (arith, o)) in
      let off : (a : Ptr) → 1 ≤ copies_up a z + copies a (node c x l r) → hit a n.at ≡ 0 =
        λ a o. hit-off (λ b. copies_up b z + copies b (node c x l r)) a n.at apart o in
      let off_x = off x.at (omega arith) in
      let (m5, run5, seat_l, kept5) =
        adopt-ok m4 x.at n.at l (λ a. omega (arith, once a))
          (Tied-frame m m4 x.at l
            (λ a o. from4 a (omega (arith, o, off a (omega (arith, o)), once a))) low_l) in
      let plain5 : set_parent el.at n.at m4 ≡ ok tt m5 = rw (ne→eqb el.at null low_l.0) at run5 in
      let (m6, run6, seat_r, kept6) =
        adopt-ok m5 x.at n.at r (λ a. omega (arith, once a))
          (Tied-frame m m5 x.at r
            (λ a o.
              kept5 a (omega (arith, o, once a))
              ∙ from4 a (omega (arith, o, off a (omega (arith, o)), once a)))
            low_r) in
      let from5 : (a : Ptr) → copies a l + copies a r ≡ 0 → m6 a ≡ m4 a =
        λ a o. kept6 a (omega (arith, o)) ∙ kept5 a (omega (arith, o)) in
      record {
        memory = m6;
        replaced = m4;
        adopted = m5;
        replaces = run4;
        left = plain5;
        right = run6;
        stands = record {
          tied =
              Tied-join m6 z (node c n l r)
                (TiedUp-frame m4 m6 z n.at (λ a o. from5 a (omega (arith, o, once a))) out4)
                (
                  given,
                  from5 n.at (omega arith) ∙ kept4 n.at (omega arith) ∙ put-same m n.at v,
                  Tied-frame m5 m6 n.at l (λ a o. kept6 a (omega (arith, o, once a))) seat_l,
                  seat_r,
                );
          apart = λ a. omega (
            arith,
            copies-fill a z (node c n l r),
            hit_once (λ b. copies_up b z + (copies b l + copies b r)) a n.at (omega arith)
                (omega (arith, once a)),
          );
        };
        live = from5 x.at (omega arith) ∙ from4 x.at (omega (arith, off_x));
        kept = λ a o p.
            let none = copies-fill a z (node c x l r) in
            from5 a (omega (arith, o)) ∙ from4 a (omega (arith, o, p));
      }

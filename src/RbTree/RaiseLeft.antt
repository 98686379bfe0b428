-- ===== src/RbTree/RaiseLeft.antt =====
-- The three ways of `rb_insert_rebalance` on where the red parent is the left child of its own
-- parent.
use simple_timer.Prelude.{ℕ, suc, ◌≡◌, ◌≢◌, true, some, arith, ◌==◌, ne→eqb}
use simple_timer.Api.{Ptr, null}
use simple_timer.RbTree.{Color, Store, load, recolor, insert_rebalance}
use simple_timer.RbTree.Shape.{
  Entry, Shape, node, Way, in_left, in_right, ptr, fill, root_of, cell, Stands,
}
use simple_timer.RbTree.Leads.{Leads, Leads-trans}
use simple_timer.RbTree.Paint.{
  root_color, red_given, here, red_at-ok, set_color-Leads, blacken, blacken-Leads,
}
use simple_timer.RbTree.RotateLeft.{rotate_left-Leads}
use simple_timer.RbTree.RotateRight.{rotate_right-Leads}

module _ (m : Store) (z : Way) (g p n : Entry) (cn : Color) (nl nr : Ptr) (p1 p2 u : Shape)
    (h : Stands m (fill z (node Color.black g (node Color.red p p1 p2) u)))
    (live : m n.at ≡ some (cell cn n nl nr p.at)) (k : ℕ) where
  abbrev family : Shape
  family = node Color.black g (node Color.red p p1 p2) u

  abbrev recolored : Shape
  recolored = node Color.red g (node Color.black p p1 p2) (blacken u)

  -- A red uncle: the loop goes on from the grandparent.
  pub left-red_uncle :
      root_color u ≡ Color.red
      → (m' : Store) × (insert_rebalance (suc k) n.at (root_of z g.at) m
          ≡ insert_rebalance k g.at (root_of z g.at) m')
        × Leads m (fill z family) m' (fill z recolored)
  unfolding insert_rebalance recolor load
  left-red_uncle red =
      let same : (p.at == p.at) ≡ true = ground arith in
      let uncle : ptr u ≢ null =
        red_given m (in_right Color.black g (node Color.red p p1 p2) z) u h red in
      let (m1, run1, s1) =
        blacken-Leads m (in_right Color.black g (node Color.red p p1 p2) z) u uncle h in
      let (m2, run2, s2) =
        set_color-Leads m1 (in_left Color.black g (blacken u) z) Color.red Color.black p p1 p2
          s1.stands in
      let (m3, run3, s3) =
        set_color-Leads m2 z Color.black Color.red g (node Color.black p p1 p2) (blacken u)
          s2.stands in
      (
        m3,
        rw (
          live,
          red_at-ok m (in_left Color.black g u z) (node Color.red p p1 p2) h,
          (here m (in_left Color.black g u z) Color.red p p1 p2 h).live,
          (here m z Color.black g (node Color.red p p1 p2) u h).live,
          same,
          red_at-ok m (in_right Color.black g (node Color.red p p1 p2) z) u h,
          red,
          run1,
          run2,
          run3,
        ),
        Leads-trans s1 (Leads-trans s2 s3),
      )

  abbrev lifted : Shape
  lifted = node Color.black p p1 (node Color.red g p2 u)

  -- The node is on the outside: one rotation, and the parent is at the top.
  pub left-outer :
      root_color u ≡ Color.black
      → ptr p2 ≢ n.at
      → (m' : Store) × (insert_rebalance (suc k) n.at (root_of z g.at) m
          ≡ insert_rebalance k n.at (root_of z p.at) m')
        × Leads m (fill z family) m' (fill z lifted)
  unfolding insert_rebalance load
  left-outer black other =
      let same : (p.at == p.at) ≡ true = ground arith in
      let (m1, run1, s1) =
        set_color-Leads m (in_left Color.black g u z) Color.red Color.black p p1 p2 h in
      let (m2, run2, s2) =
        set_color-Leads m1 z Color.black Color.red g (node Color.black p p1 p2) u s1.stands in
      let (m3, run3, s3) = rotate_right-Leads m2 z Color.red Color.black g p p1 p2 u s2.stands in
      (
        m3,
        rw (
          live,
          red_at-ok m (in_left Color.black g u z) (node Color.red p p1 p2) h,
          (here m (in_left Color.black g u z) Color.red p p1 p2 h).live,
          (here m z Color.black g (node Color.red p p1 p2) u h).live,
          same,
          red_at-ok m (in_right Color.black g (node Color.red p p1 p2) z) u h,
          black,
          ne→eqb (ptr p2) n.at other,
          run1,
          run2,
          run3,
        ),
        Leads-trans s1 (Leads-trans s2 s3),
      )

module _ (m : Store) (z : Way) (g p n : Entry) (p1 n1 n2 u : Shape)
    (h : Stands m (fill z (node Color.black g (node Color.red p p1 (node Color.red n n1 n2)) u)))
    (k : ℕ) where
  abbrev bent : Shape
  bent = node Color.black g (node Color.red p p1 (node Color.red n n1 n2)) u

  abbrev straight : Shape
  straight = node Color.black n (node Color.red p p1 n1) (node Color.red g n2 u)

  -- The node is on the inside: two rotations, and it is at the top itself. The loop goes on from
  -- its former parent.
  pub left-inner :
      root_color u ≡ Color.black
      → (m' : Store) × (insert_rebalance (suc k) n.at (root_of z g.at) m
          ≡ insert_rebalance k p.at (root_of z n.at) m')
        × Leads m (fill z bent) m' (fill z straight)
  unfolding insert_rebalance load
  left-inner black =
      let same : (p.at == p.at) ≡ true = ground arith in
      let inside : (n.at == n.at) ≡ true = ground arith in
      let near : Way = in_left Color.black g u z in
      let parent = node Color.red p p1 (node Color.red n n1 n2) in
      let (m1, run1, s1) = rotate_left-Leads m near Color.red Color.red p n n2 n1 p1 h in
      let (m2, run2, s2) =
        set_color-Leads m1 near Color.red Color.black n (node Color.red p p1 n1) n2 s1.stands in
      let (m3, run3, s3) =
        set_color-Leads m2 z Color.black Color.red g
          (node Color.black n (node Color.red p p1 n1) n2) u s2.stands in
      let (m4, run4, s4) =
        rotate_right-Leads m3 z Color.red Color.black g n (node Color.red p p1 n1) n2 u s3.stands in
      (
        m4,
        rw (
          (here m (in_right Color.red p p1 near) Color.red n n1 n2 h).live,
          red_at-ok m near parent h,
          (here m near Color.red p p1 (node Color.red n n1 n2) h).live,
          (here m z Color.black g parent u h).live,
          same,
          red_at-ok m (in_right Color.black g parent z) u h,
          black,
          inside,
          run1,
          run2,
          run3,
          run4,
        ),
        Leads-trans s1 (Leads-trans s2 (Leads-trans s3 s4)),
      )

-- ===== src/RbTree/MendLeft.antt =====
-- A round of `rb_erase_rebalance` at a left child, on a tree in memory.
use simple_timer.Prelude.{◌≡◌, sym, Bool, false, ◌&&◌, not, arith}
use simple_timer.Machine.{Run, ok}
use simple_timer.RbTree.{Color, Store, is_red, load}
use simple_timer.RbTree.Erase.{Mended, up, done, close_left, settle_left, mend_left}
use simple_timer.RbTree.Shape.{
  Entry, Shape, node, Way, top, in_left, in_right, ptr, fill, root_of, Stands, ptr-fill,
}
use simple_timer.RbTree.Leads.{Leads, Leads-trans}
use simple_timer.RbTree.Paint.{root_color, here, blacken, ptr-blacken, set_color-Leads}
use simple_timer.RbTree.Mend.{black_at-ok, blacken-ok}
use simple_timer.RbTree.RotateLeft.{rotate_left-Leads}
use simple_timer.RbTree.RotateRight.{rotate_right-Leads}

-- The subtree `t` with its parent and sibling.
module _ (m : Store) (z : Way) (c d : Color) (p o : Entry) (t s1 s2 : Shape) where
  abbrev pair : Shape
  pair = node c p t (node d o s1 s2)

  abbrev closed : Shape
  closed = node c o (node Color.black p t s1) (blacken s2)

  pub close_left-Leads :
      Stands m (fill z pair)
      → (m' : Store) × (close_left p.at (root_of z p.at) m
          ≡ ok (done (ptr (blacken (fill z closed)))) m')
        × Leads m (fill z pair) m' (blacken (fill z closed))
  unfolding close_left load
  close_left-Leads h =
      let (m1, run1, l1) = set_color-Leads m (in_right c p t z) d c o s1 s2 h in
      let (m2, run2, l2) = set_color-Leads m1 z c Color.black p t (node c o s1 s2) l1.stands in
      let (m3, run3, l3) =
        blacken-ok m2 (in_right c o s1 (in_right Color.black p t z)) s2 l2.stands in
      let (m4, run4, l4) = rotate_left-Leads m3 z Color.black c p o (blacken s2) s1 t l3.stands in
      let (m5, run5, l5) = blacken-ok m4 top (fill z closed) l4.stands in
      (
        m5,
        rw (
          (here m z c p t (node d o s1 s2) h).live,
          run1,
          run2,
          (here m2 (in_right Color.black p t z) c o s1 s2 l2.stands).live,
          run3,
          run4,
          sym (ptr-fill z closed),
          run5,
          ptr-blacken (fill z closed),
        ),
        Leads-trans l1 (Leads-trans l2 (Leads-trans l3 (Leads-trans l4 l5))),
      )

  -- Two black nephews: the sibling turns red.
  pub settle_left-up :
      Stands m (fill z pair)
      → root_color s1 ≡ Color.black
      → root_color s2 ≡ Color.black
      → (m' : Store) × (settle_left p.at (root_of z p.at) m ≡ ok (up (root_of z p.at)) m')
        × Leads m (fill z pair) m' (fill z (node c p t (node Color.red o s1 s2)))
  unfolding settle_left load
  settle_left-up h black1 black2 =
      let (m1, run1, l1) = set_color-Leads m (in_right c p t z) d Color.red o s1 s2 h in
      (
        m1,
        rw (
          (here m z c p t (node d o s1 s2) h).live,
          (here m (in_right c p t z) d o s1 s2 h).live,
          black_at-ok m (in_left d o s2 (in_right c p t z)) s1 h,
          black_at-ok m (in_right d o s1 (in_right c p t z)) s2 h,
          black1,
          black2,
          run1,
        ),
        l1,
      )

  -- A red nephew on the far side.
  pub settle_left-far :
      Stands m (fill z pair)
      → root_color s2 ≡ Color.red
      → (m' : Store) × (settle_left p.at (root_of z p.at) m
          ≡ ok (done (ptr (blacken (fill z closed)))) m')
        × Leads m (fill z pair) m' (blacken (fill z closed))
  unfolding settle_left load
  settle_left-far h red =
      let (m1, run1, l1) = close_left-Leads h in
      let b : Bool = not (is_red (root_color s1)) in
      let never : (b && false) ≡ false = ground arith in
      (
        m1,
        rw (
          (here m z c p t (node d o s1 s2) h).live,
          (here m (in_right c p t z) d o s1 s2 h).live,
          black_at-ok m (in_left d o s2 (in_right c p t z)) s1 h,
          black_at-ok m (in_right d o s1 (in_right c p t z)) s2 h,
          red,
          never,
          run1,
        ),
        l1,
      )

  -- A red sibling: a rotation puts a black one in its place.
  pub mend_left-red :
      Stands m (fill z (node Color.black p t (node Color.red o s1 s2)))
      → (m' : Store) × (mend_left p.at (root_of z p.at) m ≡ settle_left p.at (root_of z o.at) m')
        × Leads m
            (fill z (node Color.black p t (node Color.red o s1 s2)))
            m'
            (fill z (node Color.black o (node Color.red p t s1) s2))
  unfolding mend_left load
  mend_left-red h =
      let (m1, run1, l1) =
        set_color-Leads m (in_right Color.black p t z) Color.red Color.black o s1 s2 h in
      let (m2, run2, l2) =
        set_color-Leads m1 z Color.black Color.red p t (node Color.black o s1 s2) l1.stands in
      let (m3, run3, l3) = rotate_left-Leads m2 z Color.red Color.black p o s2 s1 t l2.stands in
      (
        m3,
        rw (
          (here m z Color.black p t (node Color.red o s1 s2) h).live,
          (here m (in_right Color.black p t z) Color.red o s1 s2 h).live,
          run1,
          run2,
          run3,
        ),
        Leads-trans l1 (Leads-trans l2 l3),
      )

  pub mend_left-black :
      Stands m (fill z (node c p t (node Color.black o s1 s2)))
      → (r : Run Store Mended) → settle_left p.at (root_of z p.at) m ≡ r
      → mend_left p.at (root_of z p.at) m ≡ r
  unfolding mend_left load
  mend_left-black h r settled = rw (
    (here m z c p t (node Color.black o s1 s2) h).live,
    (here m (in_right c p t z) Color.black o s1 s2 h).live,
    settled,
  )

-- A red nephew on the near side only: a rotation of the sibling first.
module _ (m : Store) (z : Way) (c d : Color) (p o i : Entry) (t a b s2 : Shape) where
  abbrev nearly : Shape
  nearly = node c p t (node d o (node Color.red i a b) s2)

  abbrev turned : Shape
  turned = node c i (node Color.black p t a) (node Color.black o b s2)

  pub settle_left-near :
      Stands m (fill z nearly)
      → root_color s2 ≡ Color.black
      → (m' : Store) × (settle_left p.at (root_of z p.at) m
          ≡ ok (done (ptr (blacken (fill z turned)))) m')
        × Leads m (fill z nearly) m' (blacken (fill z turned))
  unfolding settle_left load
  settle_left-near h black =
      let beside : Way = in_right c p t z in
      let (m1, run1, l1) = blacken-ok m (in_left d o s2 beside) (node Color.red i a b) h in
      let (m2, run2, l2) =
        set_color-Leads m1 beside d Color.red o (node Color.black i a b) s2 l1.stands in
      let (m3, run3, l3) =
        rotate_right-Leads m2 beside Color.red Color.black o i a b s2 l2.stands in
      let (m4, run4, l4) =
        close_left-Leads m3 z c Color.black p i t a (node Color.red o b s2) l3.stands in
      (
        m4,
        rw (
          (here m z c p t (node d o (node Color.red i a b) s2) h).live,
          (here m beside d o (node Color.red i a b) s2 h).live,
          black_at-ok m (in_left d o s2 beside) (node Color.red i a b) h,
          black_at-ok m (in_right d o (node Color.red i a b) beside) s2 h,
          black,
          run1,
          run2,
          run3,
          run4,
        ),
        Leads-trans l1 (Leads-trans l2 (Leads-trans l3 l4)),
      )

-- ===== src/RbTree/MendRight.antt =====
-- A round of `rb_erase_rebalance` at a right child, on a tree in memory.
use simple_timer.Prelude.{◌≡◌, sym}
use simple_timer.Machine.{Run, ok}
use simple_timer.RbTree.{Color, Store, load}
use simple_timer.RbTree.Erase.{Mended, up, done, close_right, settle_right, mend_right}
use simple_timer.RbTree.Shape.{
  Entry, Shape, node, Way, top, in_left, in_right, ptr, fill, root_of, Stands, ptr-fill,
}
use simple_timer.RbTree.Leads.{Leads, Leads-trans}
use simple_timer.RbTree.Paint.{root_color, here, blacken, ptr-blacken, set_color-Leads}
use simple_timer.RbTree.Mend.{black_at-ok, blacken-ok}
use simple_timer.RbTree.RotateLeft.{rotate_left-Leads}
use simple_timer.RbTree.RotateRight.{rotate_right-Leads}

-- The subtree `t` with its parent and sibling.
module _ (m : Store) (z : Way) (c d : Color) (p o : Entry) (t s1 s2 : Shape) where
  abbrev pair : Shape
  pair = node c p (node d o s2 s1) t

  abbrev closed : Shape
  closed = node c o (blacken s2) (node Color.black p s1 t)

  pub close_right-Leads :
      Stands m (fill z pair)
      → (m' : Store) × (close_right p.at (root_of z p.at) m
          ≡ ok (done (ptr (blacken (fill z closed)))) m')
        × Leads m (fill z pair) m' (blacken (fill z closed))
  unfolding close_right load
  close_right-Leads h =
      let (m1, run1, l1) = set_color-Leads m (in_left c p t z) d c o s2 s1 h in
      let (m2, run2, l2) = set_color-Leads m1 z c Color.black p (node c o s2 s1) t l1.stands in
      let (m3, run3, l3) =
        blacken-ok m2 (in_left c o s1 (in_left Color.black p t z)) s2 l2.stands in
      let (m4, run4, l4) = rotate_right-Leads m3 z Color.black c p o (blacken s2) s1 t l3.stands in
      let (m5, run5, l5) = blacken-ok m4 top (fill z closed) l4.stands in
      (
        m5,
        rw (
          (here m z c p (node d o s2 s1) t h).live,
          run1,
          run2,
          (here m2 (in_left Color.black p t z) c o s2 s1 l2.stands).live,
          run3,
          run4,
          sym (ptr-fill z closed),
          run5,
          ptr-blacken (fill z closed),
        ),
        Leads-trans l1 (Leads-trans l2 (Leads-trans l3 (Leads-trans l4 l5))),
      )

  -- Two black nephews: the sibling turns red.
  pub settle_right-up :
      Stands m (fill z pair)
      → root_color s1 ≡ Color.black
      → root_color s2 ≡ Color.black
      → (m' : Store) × (settle_right p.at (root_of z p.at) m ≡ ok (up (root_of z p.at)) m')
        × Leads m (fill z pair) m' (fill z (node c p (node Color.red o s2 s1) t))
  unfolding settle_right load
  settle_right-up h black1 black2 =
      let (m1, run1, l1) = set_color-Leads m (in_left c p t z) d Color.red o s2 s1 h in
      (
        m1,
        rw (
          (here m z c p (node d o s2 s1) t h).live,
          (here m (in_left c p t z) d o s2 s1 h).live,
          black_at-ok m (in_left d o s1 (in_left c p t z)) s2 h,
          black_at-ok m (in_right d o s2 (in_left c p t z)) s1 h,
          black1,
          black2,
          run1,
        ),
        l1,
      )

  -- A red nephew on the far side.
  pub settle_right-far :
      Stands m (fill z pair)
      → root_color s2 ≡ Color.red
      → (m' : Store) × (settle_right p.at (root_of z p.at) m
          ≡ ok (done (ptr (blacken (fill z closed)))) m')
        × Leads m (fill z pair) m' (blacken (fill z closed))
  unfolding settle_right load
  settle_right-far h red =
      let (m1, run1, l1) = close_right-Leads h in
      (
        m1,
        rw (
          (here m z c p (node d o s2 s1) t h).live,
          (here m (in_left c p t z) d o s2 s1 h).live,
          black_at-ok m (in_left d o s1 (in_left c p t z)) s2 h,
          black_at-ok m (in_right d o s2 (in_left c p t z)) s1 h,
          red,
          run1,
        ),
        l1,
      )

  -- A red sibling: a rotation puts a black one in its place.
  pub mend_right-red :
      Stands m (fill z (node Color.black p (node Color.red o s2 s1) t))
      → (m' : Store) × (mend_right p.at (root_of z p.at) m ≡ settle_right p.at (root_of z o.at) m')
        × Leads m
            (fill z (node Color.black p (node Color.red o s2 s1) t))
            m'
            (fill z (node Color.black o s2 (node Color.red p s1 t)))
  unfolding mend_right load
  mend_right-red h =
      let (m1, run1, l1) =
        set_color-Leads m (in_left Color.black p t z) Color.red Color.black o s2 s1 h in
      let (m2, run2, l2) =
        set_color-Leads m1 z Color.black Color.red p (node Color.black o s2 s1) t l1.stands in
      let (m3, run3, l3) = rotate_right-Leads m2 z Color.red Color.black p o s2 s1 t l2.stands in
      (
        m3,
        rw (
          (here m z Color.black p (node Color.red o s2 s1) t h).live,
          (here m (in_left Color.black p t z) Color.red o s2 s1 h).live,
          run1,
          run2,
          run3,
        ),
        Leads-trans l1 (Leads-trans l2 l3),
      )

  pub mend_right-black :
      Stands m (fill z (node c p (node Color.black o s2 s1) t))
      → (r : Run Store Mended) → settle_right p.at (root_of z p.at) m ≡ r
      → mend_right p.at (root_of z p.at) m ≡ r
  unfolding mend_right load
  mend_right-black h r settled = rw (
    (here m z c p (node Color.black o s2 s1) t h).live,
    (here m (in_left c p t z) Color.black o s2 s1 h).live,
    settled,
  )

-- A red nephew on the near side only: a rotation of the sibling first.
module _ (m : Store) (z : Way) (c d : Color) (p o i : Entry) (t a b s2 : Shape) where
  abbrev nearly : Shape
  nearly = node c p (node d o s2 (node Color.red i b a)) t

  abbrev turned : Shape
  turned = node c i (node Color.black o s2 b) (node Color.black p a t)

  pub settle_right-near :
      Stands m (fill z nearly)
      → root_color s2 ≡ Color.black
      → (m' : Store) × (settle_right p.at (root_of z p.at) m
          ≡ ok (done (ptr (blacken (fill z turned)))) m')
        × Leads m (fill z nearly) m' (blacken (fill z turned))
  unfolding settle_right load
  settle_right-near h black =
      let beside : Way = in_left c p t z in
      let (m1, run1, l1) = blacken-ok m (in_right d o s2 beside) (node Color.red i b a) h in
      let (m2, run2, l2) =
        set_color-Leads m1 beside d Color.red o s2 (node Color.black i b a) l1.stands in
      let (m3, run3, l3) = rotate_left-Leads m2 beside Color.red Color.black o i a b s2 l2.stands in
      let (m4, run4, l4) =
        close_right-Leads m3 z c Color.black p i t a (node Color.red o s2 b) l3.stands in
      (
        m4,
        rw (
          (here m z c p (node d o s2 (node Color.red i b a)) t h).live,
          (here m beside d o s2 (node Color.red i b a) h).live,
          black_at-ok m (in_left d o (node Color.red i b a) beside) s2 h,
          black_at-ok m (in_right d o s2 beside) (node Color.red i b a) h,
          black,
          run1,
          run2,
          run3,
          run4,
        ),
        Leads-trans l1 (Leads-trans l2 (Leads-trans l3 l4)),
      )

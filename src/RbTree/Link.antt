-- ===== src/RbTree/Link.antt =====
-- The new node of `rb_insert` of src/rbtree.c below its parent.
use simple_timer.Prelude.{
  ℕ, ◌≤◌, ◌≡◌, ◌≢◌, refl, ◌∙◌, arith, ◌==◌, if◌then◌else◌, ltb, ne→eqb, lt→ltb, le→ltb,
}
use simple_timer.Machine.{ok, pure, ◌>>=◌, ◌>>◌}
use simple_timer.Api.{Ptr, null}
use simple_timer.RbTree.{Color, Store, Act, load, set_left, set_right}
use simple_timer.RbTree.Shape.{
  Entry, leaf, node, Way, top, in_left, in_right, ptr, fill, above, root_of, cell, TiedUp, copies,
  copies_up, Stands, ptr-fill, copies-fill, Tied-split, Tied-join,
}
use simple_timer.RbTree.Frame.{
  put, set_left-ok, set_right-ok, Tied-put, TiedUp-put, hit-same, put-other, put-same,
}
use simple_timer.RbTree.Descent.{IsAside}

-- What `rb_insert` does after it has filled the new node.
abbrev pub link : (fresh key : ℕ) (parent root : Ptr) → Act Ptr
link fresh key parent root = if parent == null then pure fresh else do
  p ← load parent
  if ltb key p.key then set_left parent fresh else set_right parent fresh
  pure root

link-TiedUp :
    (m : Store) (z : Way) (e : Entry) (root : Ptr)
    → TiedUp m z null
    → ((a : Ptr) → copies_up a z ≤ 1)
    → IsAside e.key z
    → root ≡ root_of z null
    → (m' : Store) × (link e.at e.key (above z) root m ≡ ok (root_of z e.at) m')
      × TiedUp m' z e.at
      × ((a : Ptr) → copies_up a z ≡ 0 → m' a ≡ m a)
unfolding load
link-TiedUp m top e root h once aside is_root = (m, refl, tt, λ a n. refl)
link-TiedUp m (in_left c p r up) e root (given, live, r', out) once aside is_root =
    let x = cell c p e.at (ptr r) (above up) in
    let once' = once p.at in
    let self = hit-same p.at in
    (
      put m p.at x,
      rw (
        ne→eqb p.at null given,
        live,
        lt→ltb e.key p.key aside,
        set_left-ok m p.at _ live e.at,
        is_root,
      ),
      (
        given,
        put-same m p.at x,
        Tied-put m p.at x p.at r (omega arith) r',
        TiedUp-put m p.at x up p.at (omega arith) out,
      ),
      λ a n. put-other m p.at x a (omega (arith, n)),
    )
link-TiedUp m (in_right c p l up) e root (given, live, l', out) once aside is_root =
    let x = cell c p (ptr l) e.at (above up) in
    let once' = once p.at in
    let self = hit-same p.at in
    (
      put m p.at x,
      rw (
        ne→eqb p.at null given,
        live,
        le→ltb e.key p.key (omega arith),
        set_right-ok m p.at _ live e.at,
        is_root,
      ),
      (
        given,
        put-same m p.at x,
        Tied-put m p.at x p.at l (omega arith) l',
        TiedUp-put m p.at x up p.at (omega arith) out,
      ),
      λ a n. put-other m p.at x a (omega (arith, n)),
    )

once_more :
    (z : Way) (e : Entry)
    → copies e.at (fill z leaf) ≡ 0
    → ((a : Ptr) → copies a (fill z leaf) ≤ 1)
    → (a : Ptr) → copies a (fill z (node Color.red e leaf leaf)) ≤ 1
once_more z e new apart a =
    ground (arith, copies-fill a z leaf, copies-fill a z (node Color.red e leaf leaf), apart a, new)

-- The tree with the new node as a red leaf.
pub link-Stands :
    (m : Store) (z : Way) (e : Entry)
    → Stands m (fill z leaf)
    → e.at ≢ null
    → copies e.at (fill z leaf) ≡ 0
    → IsAside e.key z
    → (m' : Store) × (link e.at e.key
          (above z)
          (ptr (fill z leaf))
          (put m e.at (cell Color.red e null null (above z)))
        ≡ ok (root_of z e.at) m')
      × Stands m' (fill z (node Color.red e leaf leaf))
      × ((a : Ptr) → a ≢ e.at → copies a (fill z leaf) ≡ 0 → m' a ≡ m a)
link-Stands m z e h given new aside =
    let x = cell Color.red e null null (above z) in
    let unused = copies-fill e.at z leaf in
    let (m', run, out, kept) =
      link-TiedUp (put m e.at x) z e (ptr (fill z leaf))
        (TiedUp-put m e.at x z null (omega arith) (Tied-split m z leaf h.tied).0)
        (λ a. omega (arith, h.apart a, copies-fill a z leaf)) aside (ptr-fill z leaf) in
    (
      m',
      run,
      record {
        tied =
            Tied-join m' z (node Color.red e leaf leaf) out
              (given, kept e.at (omega arith) ∙ put-same m e.at x, tt, tt);
        apart = λ a. once_more z e new h.apart a;
      },
      λ a n o.
          kept a (omega (arith, o, copies-fill a z leaf))
          ∙ put-other m e.at x a (ground (arith, n)),
    )

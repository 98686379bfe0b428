-- ===== src/RbTree/Frame.antt =====
-- The single writes of src/rbtree.c on a tree in memory: what they change, and what stays.
use simple_timer.Prelude.{
  ℕ, ◌+◌, ◌≤◌, ◌≡◌, ◌≢◌, refl, true, some, arith, ◌==◌, if◌then◌else◌, ne→eqb,
}
use simple_timer.Machine.{ok, pure}
use simple_timer.Api.{Ptr, null}
use simple_timer.RbTree.{
  Color, RbNode, Store, load, store, set_left, set_right, set_parent, set_color, hang,
}
use simple_timer.RbTree.Shape.{
  Shape, leaf, node, Way, top, in_left, in_right, ptr, above, root_of, cell, Tied, TiedUp, hit,
  copies, copies_up,
}

abbrev pub put : Store → Ptr → RbNode → Store
put m p x a = if a == p then some x else m a

module _ (m : Store) (p : Ptr) (x : RbNode) (live : m p ≡ some x) where
  pub set_left-ok : (q : Ptr) → set_left p q m ≡ ok tt (put m p (record x { left = q }))
  unfolding set_left load store
  set_left-ok q = rw live

  pub set_right-ok : (q : Ptr) → set_right p q m ≡ ok tt (put m p (record x { right = q }))
  unfolding set_right load store
  set_right-ok q = rw live

  pub set_parent-ok : (q : Ptr) → set_parent p q m ≡ ok tt (put m p (record x { parent = q }))
  unfolding set_parent load store
  set_parent-ok q = rw live

  pub set_color-ok : (c : Color) → set_color p c m ≡ ok tt (put m p (record x { color = c }))
  unfolding set_color load store
  set_color-ok c = rw live

pub hit-ne : (a b : Ptr) → hit a b ≡ 0 → a ≢ b
hit-ne a b h = ground (arith, h)

pub hit-same : (a : Ptr) → hit a a ≡ 1
hit-same a = ground arith

pub hit-off : (f : Ptr → ℕ) (a b : Ptr) → f b ≡ 0 → 1 ≤ f a → hit a b ≡ 0
hit-off f a b none one = ground (arith, none, one)

pub hit_once : (f : Ptr → ℕ) (a b : Ptr) → f b ≡ 0 → f a ≤ 1 → hit a b + f a ≤ 1
hit_once f a b none one = ground (arith, none, one)

pub put-other : (m : Store) (p : Ptr) (x : RbNode) (a : Ptr) → hit a p ≡ 0 → put m p x a ≡ m a
put-other m p x a h = ground (arith, h)

pub put-same : (m : Store) (p : Ptr) (x : RbNode) → put m p x p ≡ some x
put-same m p x = ground arith

-- A change elsewhere leaves a subtree and a way up as they are.
pub Tied-frame :
    (m m' : Store) (q : Ptr) (t : Shape)
    → ((a : Ptr) → 1 ≤ copies a t → m' a ≡ m a)
    → Tied m q t
    → Tied m' q t
Tied-frame m m' q leaf same h = tt
Tied-frame m m' q (node c e l r) same (given, here, l', r') = (
  given,
  ground (arith, same e.at, here),
  Tied-frame m m' e.at l (λ a n. same a (omega (arith, n))) l',
  Tied-frame m m' e.at r (λ a n. same a (omega (arith, n))) r',
)

pub TiedUp-frame :
    (m m' : Store) (z : Way) (p : Ptr)
    → ((a : Ptr) → 1 ≤ copies_up a z → m' a ≡ m a)
    → TiedUp m z p
    → TiedUp m' z p
TiedUp-frame m m' top p same h = tt
TiedUp-frame m m' (in_left c e r up) p same (given, here, r', out) = (
  given,
  ground (arith, same e.at, here),
  Tied-frame m m' e.at r (λ a n. same a (omega (arith, n))) r',
  TiedUp-frame m m' up e.at (λ a n. same a (omega (arith, n))) out,
)
TiedUp-frame m m' (in_right c e l up) p same (given, here, l', out) = (
  given,
  ground (arith, same e.at, here),
  Tied-frame m m' e.at l (λ a n. same a (omega (arith, n))) l',
  TiedUp-frame m m' up e.at (λ a n. same a (omega (arith, n))) out,
)

pub Tied-put :
    (m : Store) (p : Ptr) (x : RbNode) (q : Ptr) (t : Shape)
    → copies p t ≡ 0
    → Tied m q t
    → Tied (put m p x) q t
Tied-put m p x q t none h = Tied-frame m (put m p x) q t (λ a n. ground (arith, none, n)) h

pub TiedUp-put :
    (m : Store) (p : Ptr) (x : RbNode) (z : Way) (q : Ptr)
    → copies_up p z ≡ 0
    → TiedUp m z q
    → TiedUp (put m p x) z q
TiedUp-put m p x z q none h = TiedUp-frame m (put m p x) z q (λ a n. ground (arith, none, n)) h

-- A node in one tree is not at the root of another.
pub ptr-apart : (p : Ptr) (t : Shape) → p ≢ null → copies p t ≡ 0 → ptr t ≢ p
ptr-apart p leaf given none = ground (arith, given)
ptr-apart p (node c e l r) given none = ground (arith, none)

-- The step of a rotation that gives the inner subtree its new parent.
pub adopt-ok :
    (m : Store) (q p : Ptr) (t : Shape)
    → ((a : Ptr) → copies a t ≤ 1)
    → Tied m q t
    → (m' : Store) × ((if ptr t == null then pure tt else set_parent (ptr t) p) m ≡ ok tt m')
      × Tied m' p t
      × ((a : Ptr) → copies a t ≡ 0 → m' a ≡ m a)
adopt-ok m q p leaf apart h = (m, refl, tt, λ a n. refl)
adopt-ok m q p (node c e l r) apart (given, here, l', r') =
    let x = cell c e (ptr l) (ptr r) p in
    (
      put m e.at x,
      rw (ne→eqb e.at null given, set_parent-ok m e.at _ here p),
      (
        given,
        ground arith,
        Tied-put m e.at x e.at l (ground (arith, apart e.at)) l',
        Tied-put m e.at x e.at r (ground (arith, apart e.at)) r',
      ),
      λ a n. ground (arith, n),
    )

-- The step of a rotation that puts the upper node in the place of the lower.
pub hang-ok :
    (m : Store) (z : Way) (new old : Ptr)
    → old ≢ null
    → copies_up old z ≡ 0
    → ((a : Ptr) → copies_up a z ≤ 1)
    → TiedUp m z old
    → (m' : Store) × (hang new old (above z) (root_of z old) m ≡ ok (root_of z new) m')
      × TiedUp m' z new
      × ((a : Ptr) → copies_up a z ≡ 0 → m' a ≡ m a)
unfolding hang load
hang-ok m top new old there none apart h = (m, refl, tt, λ a n. refl)
hang-ok m (in_left c e r up) new old there none apart (given, here, r', out) =
    let x = cell c e new (ptr r) (above up) in
    let other : ptr r ≢ old = ptr-apart old r there (omega (arith, none)) in
    (
      put m e.at x,
      rw (ne→eqb e.at null given, here, ne→eqb (ptr r) old other, set_left-ok m e.at _ here new),
      (
        given,
        ground arith,
        Tied-put m e.at x e.at r (ground (arith, apart e.at)) r',
        TiedUp-put m e.at x up e.at (ground (arith, apart e.at)) out,
      ),
      λ a n. ground (arith, n),
    )
hang-ok m (in_right c e l up) new old there none apart (given, here, l', out) =
    let x = cell c e (ptr l) new (above up) in
    let same : (old == old) ≡ true = ground arith in
    (
      put m e.at x,
      rw (ne→eqb e.at null given, here, same, set_right-ok m e.at _ here new),
      (
        given,
        ground arith,
        Tied-put m e.at x e.at l (ground (arith, apart e.at)) l',
        TiedUp-put m e.at x up e.at (ground (arith, apart e.at)) out,
      ),
      λ a n. ground (arith, n),
    )

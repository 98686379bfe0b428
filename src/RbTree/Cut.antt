-- ===== src/RbTree/Cut.antt =====
-- How `rb_erase` of src/rbtree.c puts the only child of a node in the node's place.
use simple_timer.Prelude.{◌+◌, ◌≤◌, ◌≡◌, ◌≢◌, refl, ◌∙◌, true, arith, ◌==◌, if◌then◌else◌, ne→eqb}
use simple_timer.Machine.{ok, pure}
use simple_timer.Api.{Ptr, null}
use simple_timer.RbTree.{Store, load, set_parent}
use simple_timer.RbTree.Erase.{replace_child}
use simple_timer.RbTree.Shape.{
  Shape, Way, top, in_left, in_right, ptr, fill, above, root_of, cell, Tied, TiedUp, hit, copies,
  copies_up, Stands, copies-fill, Tied-join,
}
use simple_timer.RbTree.Frame.{
  put, set_left-ok, set_right-ok, Tied-put, TiedUp-put, TiedUp-frame, Tied-frame, ptr-apart,
  adopt-ok, hit-same, put-other, put-same,
}

pub replace_child-ok :
    (m : Store) (z : Way) (new old : Ptr)
    → old ≢ null
    → copies_up old z ≡ 0
    → ((a : Ptr) → copies_up a z ≤ 1)
    → TiedUp m z old
    → (m' : Store) × (replace_child old new (above z) (root_of z old) m ≡ ok (root_of z new) m')
      × TiedUp m' z new
      × ((a : Ptr) → copies_up a z ≡ 0 → m' a ≡ m a)
unfolding replace_child load
replace_child-ok m top new old there none apart h = (m, refl, tt, λ a n. refl)
replace_child-ok m (in_left c e r up) new old there none apart (given, here, r', out) =
    let x = cell c e new (ptr r) (above up) in
    let same : (old == old) ≡ true = ground arith in
    let once = apart e.at in
    let self = hit-same e.at in
    (
      put m e.at x,
      rw (ne→eqb e.at null given, here, same, set_left-ok m e.at _ here new),
      (
        given,
        put-same m e.at x,
        Tied-put m e.at x e.at r (omega arith) r',
        TiedUp-put m e.at x up e.at (omega arith) out,
      ),
      λ a n. put-other m e.at x a (omega (arith, n)),
    )
replace_child-ok m (in_right c e l up) new old there none apart (given, here, l', out) =
    let x = cell c e (ptr l) new (above up) in
    let other : ptr l ≢ old = ptr-apart old l there (omega (arith, none)) in
    let once = apart e.at in
    let self = hit-same e.at in
    (
      put m e.at x,
      rw (ne→eqb e.at null given, here, ne→eqb (ptr l) old other, set_right-ok m e.at _ here new),
      (
        given,
        put-same m e.at x,
        Tied-put m e.at x e.at l (omega arith) l',
        TiedUp-put m e.at x up e.at (omega arith) out,
      ),
      λ a n. put-other m e.at x a (omega (arith, n)),
    )

-- The child has a new parent, and then the parent has a new child.
pub record Cut (m : Store) (z : Way) (x : Ptr) (u : Shape) : Type 0 where
  pub adopted : Store
  pub memory : Store
  pub adopts : (if ptr u == null then pure tt else set_parent (ptr u) (above z)) m ≡ ok tt adopted
  pub replaces :
      replace_child x (ptr u) (above z) (root_of z x) adopted ≡ ok (root_of z (ptr u)) memory
  pub stands : Stands memory (fill z u)
  pub kept : (a : Ptr) → copies a (fill z u) ≡ 0 → memory a ≡ m a

pub cut :
    (m : Store) (z : Way) (x q : Ptr) (u : Shape)
    → x ≢ null
    → ((a : Ptr) → copies_up a z + (hit a x + copies a u) ≤ 1)
    → TiedUp m z x
    → Tied m q u
    → Cut m z x u
cut m z x q u given once out low =
    let high = once x in
    let self = hit-same x in
    let (m1, adopts, low1, kept1) = adopt-ok m q (above z) u (λ a. omega (arith, once a)) low in
    let (m2, replaces, out2, kept2) =
      replace_child-ok m1 z (ptr u) x given (omega arith) (λ a. omega (arith, once a))
        (TiedUp-frame m m1 z x (λ a n. kept1 a (omega (arith, n, once a))) out) in
    record {
      adopted = m1;
      memory = m2;
      adopts = adopts;
      replaces = replaces;
      stands = record {
        tied =
            Tied-join m2 z u out2
              (Tied-frame m1 m2 (above z) u (λ a n. kept2 a (omega (arith, n, once a))) low1);
        apart = λ a. omega (arith, once a, copies-fill a z u);
      };
      kept = λ a n.
          let none = copies-fill a z u in kept2 a (omega (arith, n)) ∙ kept1 a (omega (arith, n));
    }

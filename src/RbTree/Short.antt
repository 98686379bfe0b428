-- ===== src/RbTree/Short.antt =====
-- A subtree that has one black node too few: what the rounds of `rb_erase_rebalance` of
-- src/rbtree.c start from, and how they end.
use mathlib.Core.Path.{subst}
use simple_timer.Prelude.{
  ℕ, suc, ◌+◌, ◌≤◌, ◌≡◌, ◌≢◌, refl, sym, true, false, ◌&&◌, not, arith, ◌==◌, ne→eqb,
}
use simple_timer.Machine.{Run, ok}
use simple_timer.Api.{Ptr, null}
use simple_timer.RbTree.{Color, Store, is_red}
use simple_timer.RbTree.Erase.{Mended, up, done, erase_rebalance}
use simple_timer.RbTree.Shape.{
  Entry, Shape, leaf, node, Way, top, in_left, in_right, ptr, fill, above, root_of, hit, copies_up,
  Stands, ptr-fill, copies-fill,
}
use simple_timer.RbTree.Frame.{ptr-apart, hit-same}
use simple_timer.RbTree.Leads.{Leads}
use simple_timer.RbTree.Paint.{root_color, color_above, here, blacken, ptr-blacken}
use simple_timer.RbTree.Balance.{
  raise, height, IsEven, IsRedBlack, IsAround, IsCalmUp, IsJoint, IsJoint-black, IsJoint-under,
  fill-IsEven, blacken-height,
}
use simple_timer.RbTree.Rounds.{Rebalanced}
use simple_timer.RbTree.Mend.{black_at-ok, blacken-ok}

-- The tree would be even with one black node more on the ways through this subtree.
pub record IsShort (z : Way) (t : Shape) : Type 0 where
  pub even : IsEven (blacken t)
  pub around : IsAround (suc (height t)) z

-- The rounds from this place, on this fuel.
abbrev pub Fills : Way → ℕ → Type 0
Fills z fuel =
    (m : Store) (t : Shape)
    → Stands m (fill z t)
    → IsShort z t
    → Rebalanced m (fill z t) (erase_rebalance fuel (ptr t) (above z) (root_of z (ptr t)) m)

abbrev IsTopped : Way → Color → Type 0
IsTopped top c = c ≡ Color.black
IsTopped (in_left d e r z) c = Unit
IsTopped (in_right d e l z) c = Unit

IsTopped-calm : (c x : Color) (z : Way) → IsCalmUp c x z → IsTopped z c
IsTopped-calm Color.red x top h = ground (arith, h)
IsTopped-calm Color.black x top h = refl
IsTopped-calm c x (in_left d e r z) h = tt
IsTopped-calm c x (in_right d e l z) h = tt

-- The root is black.
pub fill-black :
    (z : Way) (t : Shape) (h : ℕ)
    → IsAround h z
    → IsTopped z (root_color t)
    → root_color (fill z t) ≡ Color.black
fill-black top t h out topped = topped
fill-black (in_left c e r z) t h out topped =
    fill-black z (node c e t r) (raise c h) out.3 (IsTopped-calm c (root_color r) z out.1)
fill-black (in_right c e l z) t h out topped =
    fill-black z (node c e l t) (raise c h) out.3 (IsTopped-calm c (root_color l) z out.1)

pub IsJoint-calm : (c x : Color) (z : Way) → IsCalmUp c x z → IsJoint (color_above z) c
IsJoint-calm Color.red x z h = IsJoint-under z Color.red h.1
IsJoint-calm Color.black x z h = IsJoint-black (color_above z)

IsTopped-black : (z : Way) (c : Color) → c ≡ Color.black → IsTopped z c
IsTopped-black top c h = h
IsTopped-black (in_left d e r z) c h = tt
IsTopped-black (in_right d e l z) c h = tt

-- A black subtree of the right height makes the tree whole.
pub fill-IsRedBlack :
    (z : Way) (t : Shape)
    → root_color t ≡ Color.black
    → IsEven t
    → IsAround (height t) z
    → IsRedBlack (fill z t)
fill-IsRedBlack z t black even around = (
  fill-black z t (height t) around (IsTopped-black z (root_color t) black),
  fill-IsEven z t even around
      (subst (IsJoint (color_above z)) (sym black) (IsJoint-black (color_above z))),
)

black-blacken : (t : Shape) → root_color (blacken t) ≡ Color.black
black-blacken leaf = refl
black-blacken (node c e l r) = refl

-- The last round: the subtree is red, or it is the whole tree.
exit-ok :
    (m : Store) (k : ℕ) (z : Way) (t : Shape)
    → Stands m (fill z t)
    → (not (is_red (root_color t)) && not (ptr t == root_of z (ptr t))) ≡ false
    → IsRedBlack (fill z (blacken t))
    → Rebalanced m (fill z t) (erase_rebalance (suc k) (ptr t) (above z) (root_of z (ptr t)) m)
unfolding erase_rebalance
exit-ok m k z t h test balanced =
    let (m', run, s) = blacken-ok m z t h in
    record {
      memory = m';
      tree = fill z (blacken t);
      run = rw (black_at-ok m z t h, test, run, ptr-fill z (blacken t), ptr-blacken t);
      leads = s;
      balanced = balanced;
    }

pub exit-red :
    (m : Store) (k : ℕ) (z : Way) (t : Shape)
    → Stands m (fill z t)
    → IsShort z t
    → root_color t ≡ Color.red
    → Rebalanced m (fill z t) (erase_rebalance (suc k) (ptr t) (above z) (root_of z (ptr t)) m)
exit-red m k z t h short red = exit-ok m k z t h (rw red) (
    fill-IsRedBlack z (blacken t) (black-blacken t) short.even
      (subst (λ n. IsAround n z) (sym (blacken-height t red)) short.around))

pub exit-top : (k : ℕ) → Fills top (suc k)
exit-top k m t h short =
    let same : (ptr t == ptr t) ≡ true = ground arith in
    exit-ok m k top t h (ground (arith, same)) (black-blacken t, short.even)

pub root_up : (z : Way) (q : Ptr) → 1 ≤ copies_up (root_of z q) z + hit (root_of z q) q
root_up top q = omega (arith, hit-same q)
root_up (in_left c e r z) q = omega (arith, root_up z e.at)
root_up (in_right c e l z) q = omega (arith, root_up z e.at)

-- A subtree with a node above is not the whole tree.
pub below_root :
    (m : Store) (z : Way) (t : Shape)
    → Stands m (fill z t)
    → 1 ≤ copies_up (root_of z (ptr t)) z
    → root_of z (ptr t) ≢ null
    → (ptr t == root_of z (ptr t)) ≡ false
below_root m z t h there given =
    let high = root_of z (ptr t) in
    ne→eqb (ptr t) high
      (ptr-apart high t given (omega (arith, there, h.apart high, copies-fill high z t)))

pub IsEven-node :
    (c : Color) (e : Entry) (l r : Shape)
    → height l ≡ height r
    → (root_color l ≡ Color.black) × (root_color r ≡ Color.black)
    → IsEven l × IsEven r
    → IsEven (node c e l r)
IsEven-node Color.red e l r same black even = (same, black, even.0, even.1)
IsEven-node Color.black e l r same black even = (same, tt, even.0, even.1)

pub IsEven-blacken : (t : Shape) → root_color t ≡ Color.black → IsEven (blacken t) → IsEven t
IsEven-blacken leaf black even = tt
IsEven-blacken (node Color.red e l r) black even = ground (arith, black)
IsEven-blacken (node Color.black e l r) black even = even

pub same_ptr : (q : Ptr) → (q == q) ≡ true
same_ptr q = ground arith

-- The left child is not the right one.
pub other_child :
    (m : Store) (z : Way) (c : Color) (p : Entry) (u v : Shape)
    → Stands m (fill z (node c p u v))
    → ptr u ≢ null
    → (ptr u == ptr v) ≡ false
other_child m z c p leaf v h tall = ground (arith, tall)
other_child m z c p (node d q l r) v h tall =
    let at = here m (in_left c p v z) d q l r h in
    let once = at.once in
    let apart = ptr-apart q.at v at.given (omega arith) in ne→eqb q.at (ptr v) λ e. apart (sym e)

-- What a round comes to.
pub data Outcome (m : Store) (t : Shape) (z : Way) (c : Color) (p : Entry) (r : Run Store Mended)
    : Type 0 where
  rises :
      (m' : Store) (l' r' : Shape)
      → r ≡ ok (up (root_of z p.at)) m'
      → Leads m t m' (fill z (node c p l' r'))
      → IsShort z (node c p l' r')
      → Outcome m t z c p r
  ends :
      (m' : Store) (t' : Shape)
      → r ≡ ok (done (ptr t')) m'
      → Leads m t m' t'
      → IsRedBlack t'
      → Outcome m t z c p r

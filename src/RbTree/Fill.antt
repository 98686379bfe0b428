-- ===== src/RbTree/Fill.antt =====
-- `rb_erase_rebalance` of src/rbtree.c from end to end.
use simple_timer.Prelude.{ℕ, zero, suc, ◌+◌, ◌≤◌, ◌≡◌, inl, inr, arith}
use simple_timer.Machine.{ok}
use simple_timer.RbTree.{Store}
use simple_timer.RbTree.Erase.{erase_rebalance}
use simple_timer.RbTree.Shape.{
  Shape, Way, top, in_left, in_right, ptr, fill, above, Stands, ptr-fill,
}
use simple_timer.RbTree.Leads.{Leads}
use simple_timer.RbTree.Paint.{root_color, blacken}
use simple_timer.RbTree.Balance.{height, IsEven, IsRedBlack, IsAround}
use simple_timer.RbTree.Rounds.{color-cases}
use simple_timer.RbTree.Rebalance.{depth}
use simple_timer.RbTree.Short.{Fills, exit-red, exit-top, IsEven-blacken}
use simple_timer.RbTree.FillLeft.{round_left-Rebalanced}
use simple_timer.RbTree.FillRight.{round_right-Rebalanced}

pub fill-Rebalanced : (z : Way) (k : ℕ) → depth z ≤ k → Fills z (suc (suc k))
fill-Rebalanced top k enough m t h short = exit-top (suc k) m t h short
fill-Rebalanced (in_left c p s z) zero enough m t h short = ground (arith, enough)
fill-Rebalanced (in_left c p s z) (suc k) enough m t h short = elim (color-cases (root_color t)) [
  | inl red ↦ exit-red m (suc (suc k)) (in_left c p s z) t h short red
  | inr black ↦
      round_left-Rebalanced m (suc k) z c p t s (fill-Rebalanced z k (omega (arith, enough))) h
        black (IsEven-blacken t black short.even) short.around
]
fill-Rebalanced (in_right c p s z) zero enough m t h short = ground (arith, enough)
fill-Rebalanced (in_right c p s z) (suc k) enough m t h short = elim (color-cases (root_color t)) [
  | inl red ↦ exit-red m (suc (suc k)) (in_right c p s z) t h short red
  | inr black ↦
      round_right-Rebalanced m (suc k) z c p t s (fill-Rebalanced z k (omega (arith, enough))) h
        black (IsEven-blacken t black short.even) short.around
]

-- At a subtree that is even once its root is black, in surroundings that lack one black node on the
-- ways through it, `rb_erase_rebalance` ends without a fault on fuel for two rounds more than the
-- subtree is deep: it returns the root of a red-black tree of the same entries in the same order,
-- and changes no memory outside the tree.
pub erase_rebalance-Leads :
    (m : Store) (z : Way) (k : ℕ) (t : Shape)
    → Stands m (fill z t)
    → IsEven (blacken t)
    → IsAround (suc (height t)) z
    → depth z ≤ k
    → (t' : Shape) × (m' : Store) × (erase_rebalance (k + 2) (ptr t) (above z) (ptr (fill z t)) m
        ≡ ok (ptr t') m')
      × Leads m (fill z t) m' t'
      × IsRedBlack t'
erase_rebalance-Leads m z k t h even around enough =
    let b = fill-Rebalanced z k enough m t h (record { even = even; around = around }) in
    let two : k + 2 ≡ suc (suc k) = omega arith in
    (b.tree, b.memory, rw (two, ptr-fill z t) b.run, b.leads, b.balanced)

-- ===== src/RbTree/Rebalance.antt =====
-- `rb_insert_rebalance` of src/rbtree.c from end to end.
use mathlib.Core.Path.{subst}
use simple_timer.Prelude.{ℕ, zero, suc, ◌+◌, ◌≤◌, ◌≡◌, refl, arith}
use simple_timer.RbTree.{Color, Store, insert_rebalance}
use simple_timer.Machine.{ok}
use simple_timer.RbTree.Shape.{
  Entry, Shape, node, Way, top, in_left, in_right, ptr, fill, Stands, ptr-fill,
}
use simple_timer.RbTree.Leads.{Leads}
use simple_timer.RbTree.Balance.{height, IsEven, IsRedBlack, IsAround}
use simple_timer.RbTree.Rounds.{Again, exit-Rebalanced}
use simple_timer.RbTree.RoundLeft.{left_outer-Rebalanced, left_inner-Rebalanced}
use simple_timer.RbTree.RoundRight.{right_outer-Rebalanced, right_inner-Rebalanced}

abbrev pub depth : Way → ℕ
depth top = 0
depth (in_left c e r up) = suc (depth up)
depth (in_right c e l up) = suc (depth up)

pub rounds-Rebalanced : (z : Way) (k : ℕ) (n : Entry) → depth z ≤ k → Again z (suc (suc k)) n
rounds-Rebalanced top k n enough m l r = exit-Rebalanced (suc k) top n refl m l r
rounds-Rebalanced (in_left Color.black p s up) k n enough m l r =
    exit-Rebalanced (suc k) (in_left Color.black p s up) n refl m l r
rounds-Rebalanced (in_right Color.black p s up) k n enough m l r =
    exit-Rebalanced (suc k) (in_right Color.black p s up) n refl m l r
rounds-Rebalanced (in_left Color.red p s top) k n enough m l r =
    λ h even around. ground (arith, around)
rounds-Rebalanced (in_left Color.red p s (in_left Color.red g u up)) k n enough m l r =
    λ h even around. ground (arith, around)
rounds-Rebalanced (in_left Color.red p s (in_left Color.black g u up)) zero n enough m l r =
    ground (arith, enough)
rounds-Rebalanced (in_left Color.red p s (in_left Color.black g u up)) (suc k) n enough m l r =
    λ h even (same_s, calm, even_s, (same_u, _, even_u, around)).
      left_outer-Rebalanced up (suc k) m g p n u s l r
        (rounds-Rebalanced up k g (omega (arith, enough))) even even_s same_s calm.0 even_u same_u
        around h
rounds-Rebalanced (in_left Color.red p s (in_right Color.red g u up)) k n enough m l r =
    λ h even around. ground (arith, around)
rounds-Rebalanced (in_left Color.red p s (in_right Color.black g u up)) zero n enough m l r =
    ground (arith, enough)
rounds-Rebalanced (in_left Color.red p s (in_right Color.black g u up)) (suc k) n enough m l r =
    λ h even (same_s, calm, even_s, (same_u, _, even_u, around)).
      right_inner-Rebalanced up (suc k) m g p n u s r l
        (rounds-Rebalanced up k g (omega (arith, enough))) even even_s (omega arith) calm.0 even_u
        (omega arith) (subst (λ (h : ℕ). IsAround (suc h) up) even.0 around) h
rounds-Rebalanced (in_right Color.red p s top) k n enough m l r =
    λ h even around. ground (arith, around)
rounds-Rebalanced (in_right Color.red p s (in_left Color.red g u up)) k n enough m l r =
    λ h even around. ground (arith, around)
rounds-Rebalanced (in_right Color.red p s (in_left Color.black g u up)) zero n enough m l r =
    ground (arith, enough)
rounds-Rebalanced (in_right Color.red p s (in_left Color.black g u up)) (suc k) n enough m l r =
    λ h even (same_s, calm, even_s, (same_u, _, even_u, around)).
      left_inner-Rebalanced up (suc k) m g p n u s l r
        (rounds-Rebalanced up k g (omega (arith, enough))) even even_s same_s calm.0 even_u same_u
        around h
rounds-Rebalanced (in_right Color.red p s (in_right Color.red g u up)) k n enough m l r =
    λ h even around. ground (arith, around)
rounds-Rebalanced (in_right Color.red p s (in_right Color.black g u up)) zero n enough m l r =
    ground (arith, enough)
rounds-Rebalanced (in_right Color.red p s (in_right Color.black g u up)) (suc k) n enough m l r =
    λ h even (same_s, calm, even_s, (same_u, _, even_u, around)).
      right_outer-Rebalanced up (suc k) m g p n u s r l
        (rounds-Rebalanced up k g (omega (arith, enough))) even even_s (omega arith) calm.0 even_u
        (omega arith) (subst (λ (h : ℕ). IsAround (suc h) up) even.0 around) h

-- At a red node with even subtrees, in surroundings where all is well but that its parent may be
-- red too, `rb_insert_rebalance` ends without a fault on fuel for two rounds more than the node is
-- deep: it returns the root of a red-black tree of the same entries in the same order, and changes
-- no memory outside the tree.
pub insert_rebalance-Leads :
    (m : Store) (z : Way) (k : ℕ) (n : Entry) (l r : Shape)
    → Stands m (fill z (node Color.red n l r))
    → IsEven (node Color.red n l r)
    → IsAround (height l) z
    → depth z ≤ k
    → (t' : Shape) × (m' : Store) × (insert_rebalance
          (k + 2)
          n.at
          (ptr (fill z (node Color.red n l r)))
          m
        ≡ ok (ptr t') m')
      × Leads m (fill z (node Color.red n l r)) m' t'
      × IsRedBlack t'
insert_rebalance-Leads m z k n l r h even around enough =
    let b = rounds-Rebalanced z k n enough m l r h even around in
    let two : k + 2 ≡ suc (suc k) = omega arith in
    (b.tree, b.memory, rw (two, ptr-fill z (node Color.red n l r)) b.run, b.leads, b.balanced)

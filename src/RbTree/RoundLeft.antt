-- ===== src/RbTree/RoundLeft.antt =====
-- One round of `rb_insert_rebalance` where the red parent is the left child of its own parent, with
-- what it leaves to the rounds after it.
use mathlib.Core.Path.{subst}
use simple_timer.Prelude.{ℕ, suc, ◌≡◌, refl, inl, inr, arith}
use simple_timer.RbTree.{Color, Store, insert_rebalance}
use simple_timer.RbTree.Shape.{Entry, Shape, node, Way, in_left, in_right, fill, root_of, Stands}
use simple_timer.RbTree.Frame.{ptr-apart}
use simple_timer.RbTree.Paint.{root_color, here, blacken}
use simple_timer.RbTree.Balance.{height, IsEven, IsAround, blacken-IsRedBlack, blacken-height}
use simple_timer.RbTree.Rounds.{Rebalanced, Rebalanced-after, color-cases, Again, exit-Rebalanced}
use simple_timer.RbTree.RaiseLeft.{left-red_uncle, left-outer, left-inner}

-- The node, its red parent, the parent's other child, and the black grandparent with the uncle.
module _ (up : Way) (k : ℕ) (m : Store) (g p n : Entry) (u s l r : Shape)
    (again : Again up (suc k) g) (even : IsEven (node Color.red n l r)) (even_s : IsEven s)
    (same_s : height s ≡ height l) (calm_s : root_color s ≡ Color.black) (even_u : IsEven u)
    (same_u : height u ≡ height l) (around : IsAround (suc (height l)) up) where
  abbrev t : Shape
  t = node Color.red n l r

  abbrev near : Way
  near = in_left Color.black g u up

  left_recolored :
      (m1 : Store) (x y : Shape)
      → IsEven (node Color.black p x y)
      → height x ≡ height l
      → root_color u ≡ Color.red
      → Stands m1 (fill up (node Color.red g (node Color.black p x y) (blacken u)))
      → Rebalanced m1
          (fill up (node Color.red g (node Color.black p x y) (blacken u)))
          (insert_rebalance (suc k) g.at (root_of up g.at) m1)
  left_recolored m1 x y even_p same_x red stands =
      let grown = blacken-height u red in
      let (black_u, even_b) = blacken-IsRedBlack u even_u in
      again m1 (node Color.black p x y) (blacken u) stands (ground arith)
        (subst (λ h. IsAround h up) (omega arith) around)

  pub left_outer-Rebalanced :
      Stands m (fill (in_left Color.red p s near) t)
      → Rebalanced m
          (fill (in_left Color.red p s near) t)
          (insert_rebalance (suc (suc k)) n.at (root_of up g.at) m)
  left_outer-Rebalanced h =
      let at = here m (in_left Color.red p s near) Color.red n l r h in
      let once = at.once in
      elim (color-cases (root_color u)) [
        | inl red ↦
            let (m1, run, leads) =
              left-red_uncle m up g p n Color.red _ _ t s u h at.live (suc k) red in
            Rebalanced-after run leads
              (left_recolored m1 t s (ground arith) (omega arith) red leads.stands)
        | inr black ↦
            let (m1, run, leads) =
              left-outer m up g p n Color.red _ _ t s u h at.live (suc k) black
                (ptr-apart n.at s at.given (omega arith)) in
            let even_g : IsEven (node Color.red g s u) = ground arith in
            Rebalanced-after run leads (
              exit-Rebalanced k (in_left Color.black p (node Color.red g s u) up) n refl m1 l r
                leads.stands even
                (omega arith, tt, even_g, subst (λ h. IsAround h up) (omega arith) around))
      ]

  pub left_inner-Rebalanced :
      Stands m (fill (in_right Color.red p s near) t)
      → Rebalanced m
          (fill (in_right Color.red p s near) t)
          (insert_rebalance (suc (suc k)) n.at (root_of up g.at) m)
  left_inner-Rebalanced h =
      let at = here m (in_right Color.red p s near) Color.red n l r h in
      elim (color-cases (root_color u)) [
        | inl red ↦
            let (m1, run, leads) =
              left-red_uncle m up g p n Color.red _ _ s t u h at.live (suc k) red in
            Rebalanced-after run leads
              (left_recolored m1 s t (ground arith) same_s red leads.stands)
        | inr black ↦
            let (m1, run, leads) = left-inner m up g p n s l r u h (suc k) black in
            let even_g : IsEven (node Color.red g r u) = ground arith in
            Rebalanced-after run leads (
              exit-Rebalanced k (in_left Color.black n (node Color.red g r u) up) p refl m1 s l
                leads.stands (ground arith)
                (omega arith, tt, even_g, subst (λ h. IsAround h up) (omega arith) around))
      ]

-- ===== src/RbTree/RoundRight.antt =====
-- One round of `rb_insert_rebalance` where the red parent is the right child of its own parent, with
-- what it leaves to the rounds after it.
use mathlib.Core.Path.{subst}
use simple_timer.Prelude.{ℕ, suc, ◌≡◌, refl, inl, inr, arith}
use simple_timer.RbTree.{Color, Store, insert_rebalance}
use simple_timer.RbTree.Shape.{Entry, Shape, node, Way, in_left, in_right, fill, root_of, Stands}
use simple_timer.RbTree.Frame.{ptr-apart}
use simple_timer.RbTree.Paint.{root_color, here, blacken}
use simple_timer.RbTree.Balance.{height, IsEven, IsAround, blacken-IsRedBlack, blacken-height}
use simple_timer.RbTree.Rounds.{Rebalanced, Rebalanced-after, color-cases, Again, exit-Rebalanced}
use simple_timer.RbTree.RaiseRight.{right-red_uncle, right-outer, right-inner}

-- The node, its red parent, the parent's other child, and the black grandparent with the uncle.
module _ (up : Way) (k : ℕ) (m : Store) (g p n : Entry) (u s l r : Shape)
    (again : Again up (suc k) g) (even : IsEven (node Color.red n r l)) (even_s : IsEven s)
    (same_s : height s ≡ height l) (calm_s : root_color s ≡ Color.black) (even_u : IsEven u)
    (same_u : height u ≡ height l) (around : IsAround (suc (height l)) up) where
  abbrev t : Shape
  t = node Color.red n r l

  abbrev near : Way
  near = in_right Color.black g u up

  right_recolored :
      (m1 : Store) (x y : Shape)
      → IsEven (node Color.black p y x)
      → height x ≡ height l
      → root_color u ≡ Color.red
      → Stands m1 (fill up (node Color.red g (blacken u) (node Color.black p y x)))
      → Rebalanced m1
          (fill up (node Color.red g (blacken u) (node Color.black p y x)))
          (insert_rebalance (suc k) g.at (root_of up g.at) m1)
  right_recolored m1 x y even_p same_x red stands =
      let grown = blacken-height u red in
      let (black_u, even_b) = blacken-IsRedBlack u even_u in
      again m1 (blacken u) (node Color.black p y x) stands (ground arith)
        (subst (λ h. IsAround h up) (omega arith) around)

  pub right_outer-Rebalanced :
      Stands m (fill (in_right Color.red p s near) t)
      → Rebalanced m
          (fill (in_right Color.red p s near) t)
          (insert_rebalance (suc (suc k)) n.at (root_of up g.at) m)
  right_outer-Rebalanced h =
      let at = here m (in_right Color.red p s near) Color.red n r l h in
      let once = at.once in
      elim (color-cases (root_color u)) [
        | inl red ↦
            let (m1, run, leads) =
              right-red_uncle m up g p n Color.red _ _ t s u h at.live (suc k) red in
            Rebalanced-after run leads
              (right_recolored m1 t s (ground arith) (omega arith) red leads.stands)
        | inr black ↦
            let (m1, run, leads) =
              right-outer m up g p n Color.red _ _ t s u h at.live (suc k) black
                (ptr-apart n.at s at.given (omega arith)) in
            let even_g : IsEven (node Color.red g u s) = ground arith in
            Rebalanced-after run leads (
              exit-Rebalanced k (in_right Color.black p (node Color.red g u s) up) n refl m1 r l
                leads.stands even
                (omega arith, tt, even_g, subst (λ h. IsAround h up) (omega arith) around))
      ]

  pub right_inner-Rebalanced :
      Stands m (fill (in_left Color.red p s near) t)
      → Rebalanced m
          (fill (in_left Color.red p s near) t)
          (insert_rebalance (suc (suc k)) n.at (root_of up g.at) m)
  right_inner-Rebalanced h =
      let at = here m (in_left Color.red p s near) Color.red n r l h in
      elim (color-cases (root_color u)) [
        | inl red ↦
            let (m1, run, leads) =
              right-red_uncle m up g p n Color.red _ _ s t u h at.live (suc k) red in
            Rebalanced-after run leads
              (right_recolored m1 s t (ground arith) same_s red leads.stands)
        | inr black ↦
            let (m1, run, leads) = right-inner m up g p n s l r u h (suc k) black in
            let even_g : IsEven (node Color.red g u r) = ground arith in
            Rebalanced-after run leads (
              exit-Rebalanced k (in_right Color.black n (node Color.red g u r) up) p refl m1 l s
                leads.stands (ground arith)
                (omega arith, tt, even_g, subst (λ h. IsAround h up) (omega arith) around))
      ]

-- ===== src/RbTree/Balance.antt =====
-- The colours of a red-black tree, and of the surroundings of a subtree.
use mathlib.Core.Path.{subst}
use simple_timer.Prelude.{ℕ, suc, ◌≡◌, refl, sym, true, false, arith}
use simple_timer.RbTree.{Color}
use simple_timer.RbTree.Shape.{Shape, leaf, node, Way, top, in_left, in_right, fill}
use simple_timer.RbTree.Paint.{root_color, color_above, blacken}

abbrev pub raise : Color → ℕ → ℕ
raise Color.red h = h
raise Color.black h = suc h

-- The black nodes from the root to the leftmost end.
abbrev pub height : Shape → ℕ
height leaf = 0
height (node c e l r) = raise c (height l)

-- A red node has black children.
abbrev pub IsCalm : Color → Color → Color → Type 0
IsCalm Color.red x y = (x ≡ Color.black) × (y ≡ Color.black)
IsCalm Color.black x y = Unit

-- On all ways down there are as many black nodes, and no two red ones in a row.
abbrev pub IsEven : Shape → Type 0
IsEven leaf = Unit
IsEven (node c e l r) =
    (height l ≡ height r) × IsCalm c (root_color l) (root_color r) × IsEven l × IsEven r

abbrev pub IsRedBlack : Shape → Type 0
IsRedBlack t = (root_color t ≡ Color.black) × IsEven t

-- There is a node above, and it is black.
abbrev pub IsUnderBlack : Way → Type 0
IsUnderBlack top = true ≡ false
IsUnderBlack (in_left c e r up) = c ≡ Color.black
IsUnderBlack (in_right c e l up) = c ≡ Color.black

-- A red node has a black child, and a black parent.
abbrev pub IsCalmUp : Color → Color → Way → Type 0
IsCalmUp Color.red x up = (x ≡ Color.black) × IsUnderBlack up
IsCalmUp Color.black x up = Unit

-- The surroundings of a subtree of this height, in which nothing is wrong.
abbrev pub IsAround : ℕ → Way → Type 0
IsAround h top = Unit
IsAround h (in_left c e r up) =
    (height r ≡ h) × IsCalmUp c (root_color r) up × IsEven r × IsAround (raise c h) up
IsAround h (in_right c e l up) =
    (height l ≡ h) × IsCalmUp c (root_color l) up × IsEven l × IsAround (raise c h) up

abbrev pub depth : Way → ℕ
depth top = 0
depth (in_left c e r up) = suc (depth up)
depth (in_right c e l up) = suc (depth up)

-- The node above is not red, or the subtree is not.
abbrev pub IsJoint : Color → Color → Type 0
IsJoint Color.red x = x ≡ Color.black
IsJoint Color.black x = Unit

pub blacken-IsRedBlack : (t : Shape) → IsEven t → IsRedBlack (blacken t)
blacken-IsRedBlack leaf h = (refl, tt)
blacken-IsRedBlack (node c e l r) h = (refl, (h.0, tt, h.2, h.3))

pub blacken-height : (t : Shape) → root_color t ≡ Color.red → height (blacken t) ≡ suc (height t)
blacken-height leaf h = ground (arith, h)
blacken-height (node c e l r) h = ground (arith, h)

pub IsJoint-black : (c : Color) → IsJoint c Color.black
IsJoint-black Color.red = refl
IsJoint-black Color.black = tt

pub IsJoint-under : (up : Way) (c : Color) → IsUnderBlack up → IsJoint (color_above up) c
IsJoint-under top c h = tt
IsJoint-under (in_left d e r up) c h = subst (λ b. IsJoint b c) (sym h) tt
IsJoint-under (in_right d e l up) c h = subst (λ b. IsJoint b c) (sym h) tt

-- A subtree and its surroundings are a whole.
pub fill-IsEven :
    (z : Way) (t : Shape)
    → IsEven t
    → IsAround (height t) z
    → IsJoint (color_above z) (root_color t)
    → IsEven (fill z t)
fill-IsEven top t h out joint = h
fill-IsEven (in_left Color.red e r up) t h (same, calm, r', out) joint =
    fill-IsEven up (node Color.red e t r) (sym same, (joint, calm.0), h, r') out
      (IsJoint-under up Color.red calm.1)
fill-IsEven (in_left Color.black e r up) t h (same, calm, r', out) joint =
    fill-IsEven up (node Color.black e t r) (sym same, tt, h, r') out
      (IsJoint-black (color_above up))
fill-IsEven (in_right Color.red e l up) t h (same, calm, l', out) joint =
    fill-IsEven up (node Color.red e l t) (same, (calm.0, joint), l', h)
      (subst (λ n. IsAround n up) (sym same) out) (IsJoint-under up Color.red calm.1)
fill-IsEven (in_right Color.black e l up) t h (same, calm, l', out) joint =
    fill-IsEven up (node Color.black e l t) (same, tt, l', h)
      (subst (λ n. IsAround (suc n) up) (sym same) out) (IsJoint-black (color_above up))

-- A red subtree has a black node above it.
abbrev pub IsOver : Color → Way → Type 0
IsOver Color.red z = IsUnderBlack z
IsOver Color.black z = Unit

-- The surroundings of a subtree of a red-black tree.
pub record Within (z : Way) (t : Shape) : Type 0 where
  pub even : IsEven t
  pub around : IsAround (height t) z
  pub over : IsOver (root_color t) z

IsCalmUp-over : (c x : Color) (up : Way) → IsCalm c x x → IsOver c up → IsCalmUp c x up
IsCalmUp-over Color.red x up calm over = (calm.0, over)
IsCalmUp-over Color.black x up calm over = tt

IsOver-child :
    (c d : Color) (z : Way) → (c ≡ Color.black → IsUnderBlack z) → IsCalm c d d → IsOver d z
IsOver-child Color.red d z under calm = subst (λ x. IsOver x z) (sym calm.0) tt
IsOver-child Color.black Color.red z under calm = under refl
IsOver-child Color.black Color.black z under calm = tt

IsCalm-left : (c x y : Color) → IsCalm c x y → IsCalm c x x
IsCalm-left Color.red x y calm = (calm.0, calm.0)
IsCalm-left Color.black x y calm = tt

IsCalm-right : (c x y : Color) → IsCalm c x y → IsCalm c y y
IsCalm-right Color.red x y calm = (calm.1, calm.1)
IsCalm-right Color.black x y calm = tt

pub IsRedBlack-Within : (z : Way) (t : Shape) → IsRedBlack (fill z t) → Within z t
IsRedBlack-Within top t (black, even) = record {
  even = even;
  around = tt;
  over = subst (λ c. IsOver c top) (sym black) tt;
}
IsRedBlack-Within (in_left c e r up) t h =
    let w = IsRedBlack-Within up (node c e t r) h in
    let (same, calm, even, even_r) = w.even in
    record {
      even = even;
      around = (
        sym same,
        IsCalmUp-over c (root_color r) up (IsCalm-right c _ _ calm) w.over,
        even_r,
        w.around,
      );
      over =
          IsOver-child c (root_color t) (in_left c e r up) (λ black. black)
            (IsCalm-left c _ _ calm);
    }
IsRedBlack-Within (in_right c e l up) t h =
    let w = IsRedBlack-Within up (node c e l t) h in
    let (same, calm, even_l, even) = w.even in
    record {
      even = even;
      around = (
        same,
        IsCalmUp-over c (root_color l) up (IsCalm-left c _ _ calm) w.over,
        even_l,
        subst (λ n. IsAround (raise c n) up) same w.around,
      );
      over =
          IsOver-child c (root_color t) (in_right c e l up) (λ black. black)
            (IsCalm-right c _ _ calm);
    }

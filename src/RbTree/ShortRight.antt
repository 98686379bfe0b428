-- ===== src/RbTree/ShortRight.antt =====
-- One round of `rb_erase_rebalance` where the short subtree is a right child.
use mathlib.Core.Path.{subst}
use simple_timer.Prelude.{suc, ◌≡◌, refl, inl, inr, arith}
use simple_timer.Machine.{ok}
use simple_timer.RbTree.{Color, Store}
use simple_timer.RbTree.Erase.{done, settle_right}
use simple_timer.RbTree.Shape.{Entry, Shape, leaf, node, Way, ptr, fill, root_of, Stands}
use simple_timer.RbTree.Leads.{Leads}
use simple_timer.RbTree.Paint.{root_color, blacken}
use simple_timer.RbTree.Balance.{
  raise, height, IsEven, IsAround, IsCalmUp, fill-IsEven, blacken-IsRedBlack, blacken-height,
}
use simple_timer.RbTree.Rounds.{color-cases}
use simple_timer.RbTree.MendRight.{settle_right-up, settle_right-far, settle_right-near}
use simple_timer.RbTree.Short.{IsShort, Outcome, rises, ends, IsJoint-calm, IsEven-node}

IsShort-up :
    (z : Way) (c : Color) (p o : Entry) (t s1 s2 : Shape)
    → IsEven t
    → root_color t ≡ Color.black
    → IsEven s1
    → IsEven s2
    → height s1 ≡ height t
    → height s2 ≡ height t
    → root_color s1 ≡ Color.black
    → root_color s2 ≡ Color.black
    → IsAround (raise c (suc (height t))) z
    → IsShort z (node c p (node Color.red o s2 s1) t)
IsShort-up z Color.red p o t s1 s2 even black even1 even2 same1 same2 black1 black2 around =
    record { even = ground arith; around = subst (λ h. IsAround (suc h) z) (omega arith) around }
IsShort-up z Color.black p o t s1 s2 even black even1 even2 same1 same2 black1 black2 around =
    record {
      even = ground arith;
      around = subst (λ h. IsAround (suc (suc h)) z) (omega arith) around;
    }

module _ (m : Store) (z : Way) (c : Color) (p o : Entry) (t : Shape) (even : IsEven t)
    (black : root_color t ≡ Color.black) (x : Color) (calm : IsCalmUp c x z)
    (around : IsAround (raise c (suc (height t))) z) where
  settle_right-closed :
      (m' : Store) (s : Shape) (o' : Entry) (s1 s2 : Shape)
      → IsEven (node Color.black p s1 t)
      → IsEven s2
      → root_color s2 ≡ Color.black
      → height s2 ≡ suc (height t)
      → settle_right p.at (root_of z p.at) m
        ≡ ok (done (ptr (blacken (fill z (node c o' s2 (node Color.black p s1 t)))))) m'
      → Leads m (fill z s) m' (blacken (fill z (node c o' s2 (node Color.black p s1 t))))
      → Outcome m (fill z s) z c p (settle_right p.at (root_of z p.at) m)
  settle_right-closed m' s o' s1 s2 even1 even2 black2 same run leads =
      let whole : IsEven (node c o' s2 (node Color.black p s1 t)) =
        IsEven-node c o' s2 (node Color.black p s1 t) (omega arith) (ground arith) (ground arith) in
      ends m' (blacken (fill z (node c o' s2 (node Color.black p s1 t)))) run leads (
        blacken-IsRedBlack (fill z (node c o' s2 (node Color.black p s1 t))) (
          fill-IsEven z (node c o' s2 (node Color.black p s1 t)) whole
            (subst (λ h. IsAround (raise c h) z) (omega arith) around) (IsJoint-calm c x z calm)))

  -- The sibling is black, and its far child is red.
  settle_right-red :
      (s1 s2 : Shape)
      → Stands m (fill z (node c p (node Color.black o s2 s1) t))
      → IsEven s1
      → IsEven s2
      → height s1 ≡ height t
      → height s2 ≡ height t
      → root_color s2 ≡ Color.red
      → Outcome m
          (fill z (node c p (node Color.black o s2 s1) t))
          z
          c
          p
          (settle_right p.at (root_of z p.at) m)
  settle_right-red s1 s2 h even1 even2 same1 same2 red2 =
      let (m', run, leads) = settle_right-far m z c Color.black p o t s1 s2 h red2 in
      let grown = blacken-height s2 red2 in
      let (black2', even2') = blacken-IsRedBlack s2 even2 in
      settle_right-closed m' (node c p (node Color.black o s2 s1) t) o s1 (blacken s2)
        (ground arith) even2' black2' (omega arith) run leads

  -- The sibling is black, and its near child is not red.
  settle_right-quiet :
      (s1 s2 : Shape)
      → Stands m (fill z (node c p (node Color.black o s2 s1) t))
      → IsEven s1
      → IsEven s2
      → height s1 ≡ height t
      → height s2 ≡ height t
      → root_color s1 ≡ Color.black
      → Outcome m
          (fill z (node c p (node Color.black o s2 s1) t))
          z
          c
          p
          (settle_right p.at (root_of z p.at) m)
  settle_right-quiet s1 s2 h even1 even2 same1 same2 black1 = elim (color-cases (root_color s2)) [
    | inl red2 ↦ settle_right-red s1 s2 h even1 even2 same1 same2 red2
    | inr black2 ↦
        let (m', run, leads) = settle_right-up m z c Color.black p o t s1 s2 h black1 black2 in
        rises m' (node Color.red o s2 s1) t run leads
          (IsShort-up z c p o t s1 s2 even black even1 even2 same1 same2 black1 black2 around)
  ]

  -- The sibling is black.
  pub settle_right-Outcome :
      (s1 s2 : Shape)
      → Stands m (fill z (node c p (node Color.black o s2 s1) t))
      → IsEven s1
      → IsEven s2
      → height s1 ≡ height t
      → height s2 ≡ height t
      → Outcome m
          (fill z (node c p (node Color.black o s2 s1) t))
          z
          c
          p
          (settle_right p.at (root_of z p.at) m)
  settle_right-Outcome leaf s2 h even1 even2 same1 same2 =
      settle_right-quiet leaf s2 h even1 even2 same1 same2 refl
  settle_right-Outcome (node Color.black i b a) s2 h even1 even2 same1 same2 =
      settle_right-quiet (node Color.black i b a) s2 h even1 even2 same1 same2 refl
  settle_right-Outcome (node Color.red i b a) s2 h even1 even2 same1 same2 =
      elim (color-cases (root_color s2)) [
        | inl red2 ↦ settle_right-red (node Color.red i b a) s2 h even1 even2 same1 same2 red2
        | inr black2 ↦
            let (m', run, leads) = settle_right-near m z c Color.black p o i t a b s2 h black2 in
            settle_right-closed m' (node c p (node Color.black o s2 (node Color.red i b a)) t) i a
              (node Color.black o s2 b) (ground arith) (ground arith) refl (omega arith) run leads
      ]

-- ===== src/RbTree/FillRight.antt =====
-- The loop of `rb_erase_rebalance` around a round at a right child.
use mathlib.Core.Path.{subst}
use simple_timer.Prelude.{ℕ, suc, ◌≡◌, ◌≢◌, refl, ◌∙◌, false, arith, ◌==◌}
use simple_timer.Machine.{Run, ok}
use simple_timer.Api.{Ptr, null}
use simple_timer.RbTree.{Color, Store, load}
use simple_timer.RbTree.Erase.{Mended, up, done, settle_right, mend_right, erase_rebalance}
use simple_timer.RbTree.Shape.{
  Entry, Shape, leaf, node, Way, in_left, in_right, ptr, fill, above, root_of, Stands, ptr-fill,
}
use simple_timer.RbTree.Leads.{Leads, Leads-trans}
use simple_timer.RbTree.Paint.{root_color, here, root_given}
use simple_timer.RbTree.Balance.{height, IsEven, IsAround}
use simple_timer.RbTree.Rounds.{Rebalanced, Rebalanced-after}
use simple_timer.RbTree.Mend.{black_at-ok, Leads-refl}
use simple_timer.RbTree.MendRight.{mend_right-red, mend_right-black}
use simple_timer.RbTree.Short.{
  IsShort, Fills, Outcome, rises, ends, exit-red, below_root, root_up, other_child,
}
use simple_timer.RbTree.ShortRight.{settle_right-Outcome}

-- The loop around a round.
module _ (m : Store) (k : ℕ) (z : Way) (c : Color) (p : Entry) (t s : Shape)
    (h : Stands m (fill z (node c p s t))) (black : root_color t ≡ Color.black)
    (tall : ptr s ≢ null) where
  abbrev place : Way
  place = in_right c p s z

  not_root : (ptr t == root_of z p.at) ≡ false
  not_root =
      let at = here m z c p s t h in
      below_root m place t h (omega (arith, root_up z p.at)) (
        subst (λ (q : Ptr). q ≢ null) (ptr-fill z (node c p s t))
          (root_given m z (node c p s t) h at.given))

  right-ends :
      (m' : Store) (q : Ptr)
      → mend_right p.at (root_of z p.at) m ≡ ok (done q) m'
      → erase_rebalance (suc k) (ptr t) p.at (root_of z p.at) m ≡ ok q m'
  unfolding erase_rebalance load
  right-ends m' q run = rw (
    black_at-ok m place t h,
    black,
    not_root,
    (here m z c p s t h).live,
    other_child m z c p s t h tall,
    run,
  )

  right-rises :
      (m' : Store) (z' : Way) (c' : Color) (l' r' : Shape)
      → mend_right p.at (root_of z p.at) m ≡ ok (up (root_of z' p.at)) m'
      → Stands m' (fill z' (node c' p r' l'))
      → erase_rebalance (suc k) (ptr t) p.at (root_of z p.at) m
        ≡ erase_rebalance k p.at (above z') (root_of z' p.at) m'
  unfolding erase_rebalance load
  right-rises m' z' c' l' r' run h' = rw (
    black_at-ok m place t h,
    black,
    not_root,
    (here m z c p s t h).live,
    other_child m z c p s t h tall,
    run,
    (here m' z' c' p r' l' h').live,
  )

-- A round, after which the loop goes on from the parent or ends.
after_right :
    (m m0 : Store) (k : ℕ) (z z0 : Way) (c c0 : Color) (p : Entry) (t s s0 : Shape)
    → Stands m (fill z (node c p s t))
    → root_color t ≡ Color.black
    → ptr s ≢ null
    → Leads m (fill z (node c p s t)) m0 s0
    → ((r : Run Store Mended)
        → settle_right p.at (root_of z0 p.at) m0 ≡ r
        → mend_right p.at (root_of z p.at) m ≡ r)
    → Outcome m0 s0 z0 c0 p (settle_right p.at (root_of z0 p.at) m0)
    → ((m' : Store) (l r : Shape)
        → Stands m' (fill z0 (node c0 p r l))
        → IsShort z0 (node c0 p r l)
        → Rebalanced m'
            (fill z0 (node c0 p r l))
            (erase_rebalance k p.at (above z0) (root_of z0 p.at) m'))
    → Rebalanced m (fill z (node c p s t)) (erase_rebalance (suc k) (ptr t) p.at (root_of z p.at) m)
after_right m m0 k z z0 c c0 p t s s0 h black tall start begins (rises m' l r run leads short)
      goes =
    Rebalanced-after
      (right-rises m k z c p t s h black tall m' z0 c0 r l
        (begins (ok (up (root_of z0 p.at)) m') run) leads.stands)
      (Leads-trans start leads) (goes m' r l leads.stands short)
after_right m m0 k z z0 c c0 p t s s0 h black tall start begins (ends m' t' run leads balanced)
      goes =
    record {
      memory = m';
      tree = t';
      run = right-ends m k z c p t s h black tall m' (ptr t') (begins (ok (done (ptr t')) m') run);
      leads = Leads-trans start leads;
      balanced = balanced;
    }

pub round_right-Rebalanced :
    (m : Store) (k : ℕ) (z : Way) (c : Color) (p : Entry) (t s : Shape)
    → Fills z (suc k)
    → Stands m (fill z (node c p s t))
    → root_color t ≡ Color.black
    → IsEven t
    → IsAround (suc (height t)) (in_right c p s z)
    → Rebalanced m
        (fill z (node c p s t))
        (erase_rebalance (suc (suc k)) (ptr t) p.at (root_of z p.at) m)
round_right-Rebalanced m k z c p t leaf again h black even around = ground (arith, around)
round_right-Rebalanced m k z c p t (node Color.black o s2 s1) again h black even
      (same, calm, even_s, around) =
    let evens : IsEven s1 × IsEven s2 = ground arith in
    after_right m m (suc k) z z c c p t (node Color.black o s2 s1)
      (fill z (node c p (node Color.black o s2 s1) t)) h black
      (here m (in_left c p t z) Color.black o s2 s1 h).given
      (Leads-refl m (fill z (node c p (node Color.black o s2 s1) t)) h)
      (mend_right-black m z c Color.black p o t s1 s2 h)
      (settle_right-Outcome m z c p o t even black Color.black calm around s1 s2 h evens.0 evens.1
        (omega arith) (omega arith))
      (λ m' l r. again m' (node c p r l))
round_right-Rebalanced m k z Color.red p t (node Color.red o s2 s1) again h black even around =
    ground (arith, around)
round_right-Rebalanced m k z Color.black p t (node Color.red o s2 leaf) again h black even around =
    ground (arith, around)
round_right-Rebalanced m k z Color.black p t (node Color.red o s2 (node Color.red i b a)) again h
      black even around =
    ground (arith, around)
round_right-Rebalanced m k z Color.black p t (node Color.red o s2 (node Color.black i b a)) again h
      black even (same, calm, even_s, around) =
    let s1 = node Color.black i b a in
    let z1 : Way = in_right Color.black o s2 z in
    let (m1, run, leads) = mend_right-red m z Color.black Color.red p o t s1 s2 h in
    let evens : IsEven a × IsEven b × IsEven s2 = ground arith in
    let around1 : IsAround (suc (height t)) z1 = (omega arith, tt, evens.2, around) in
    after_right m m1 (suc k) z z1 Color.black Color.red p t (node Color.red o s2 s1)
      (fill z (node Color.black o s2 (node Color.red p s1 t))) h black
      (here m (in_left Color.black p t z) Color.red o s2 s1 h).given leads
      (λ r settled. run ∙ settled)
      (settle_right-Outcome m1 z1 Color.red p i t even black Color.black (refl, refl) around1 a b
        leads.stands evens.0 evens.1 (omega arith) (omega arith))
      (λ m' l r stands short. exit-red m' k z1 (node Color.red p r l) stands short refl)

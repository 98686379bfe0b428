-- ===== src/RbTree/FillLeft.antt =====
-- The loop of `rb_erase_rebalance` around a round at a left child.
use mathlib.Core.Path.{subst}
use simple_timer.Prelude.{ℕ, suc, ◌≡◌, ◌≢◌, refl, ◌∙◌, false, arith, ◌==◌}
use simple_timer.Machine.{Run, ok}
use simple_timer.Api.{Ptr, null}
use simple_timer.RbTree.{Color, Store, load}
use simple_timer.RbTree.Erase.{Mended, up, done, settle_left, mend_left, erase_rebalance}
use simple_timer.RbTree.Shape.{
  Entry, Shape, leaf, node, Way, in_left, in_right, ptr, fill, above, root_of, Stands, ptr-fill,
}
use simple_timer.RbTree.Leads.{Leads, Leads-trans}
use simple_timer.RbTree.Paint.{root_color, here, root_given}
use simple_timer.RbTree.Balance.{height, IsEven, IsAround}
use simple_timer.RbTree.Rounds.{Rebalanced, Rebalanced-after}
use simple_timer.RbTree.Mend.{black_at-ok, Leads-refl}
use simple_timer.RbTree.MendLeft.{mend_left-red, mend_left-black}
use simple_timer.RbTree.Short.{
  IsShort, Fills, Outcome, rises, ends, exit-red, below_root, root_up, same_ptr,
}
use simple_timer.RbTree.ShortLeft.{settle_left-Outcome}

-- The loop around a round.
module _ (m : Store) (k : ℕ) (z : Way) (c : Color) (p : Entry) (t s : Shape)
    (h : Stands m (fill z (node c p t s))) (black : root_color t ≡ Color.black)
    (tall : ptr s ≢ null) where
  abbrev place : Way
  place = in_left c p s z

  not_root : (ptr t == root_of z p.at) ≡ false
  not_root =
      let at = here m z c p t s h in
      below_root m place t h (omega (arith, root_up z p.at)) (
        subst (λ (q : Ptr). q ≢ null) (ptr-fill z (node c p t s))
          (root_given m z (node c p t s) h at.given))

  left-ends :
      (m' : Store) (q : Ptr)
      → mend_left p.at (root_of z p.at) m ≡ ok (done q) m'
      → erase_rebalance (suc k) (ptr t) p.at (root_of z p.at) m ≡ ok q m'
  unfolding erase_rebalance load
  left-ends m' q run =
      rw
        (black_at-ok m place t h, black, not_root, (here m z c p t s h).live, same_ptr (ptr t), run)

  left-rises :
      (m' : Store) (z' : Way) (c' : Color) (l' r' : Shape)
      → mend_left p.at (root_of z p.at) m ≡ ok (up (root_of z' p.at)) m'
      → Stands m' (fill z' (node c' p l' r'))
      → erase_rebalance (suc k) (ptr t) p.at (root_of z p.at) m
        ≡ erase_rebalance k p.at (above z') (root_of z' p.at) m'
  unfolding erase_rebalance load
  left-rises m' z' c' l' r' run h' = rw (
    black_at-ok m place t h,
    black,
    not_root,
    (here m z c p t s h).live,
    same_ptr (ptr t),
    run,
    (here m' z' c' p l' r' h').live,
  )

-- A round, after which the loop goes on from the parent or ends.
after_left :
    (m m0 : Store) (k : ℕ) (z z0 : Way) (c c0 : Color) (p : Entry) (t s s0 : Shape)
    → Stands m (fill z (node c p t s))
    → root_color t ≡ Color.black
    → ptr s ≢ null
    → Leads m (fill z (node c p t s)) m0 s0
    → ((r : Run Store Mended)
        → settle_left p.at (root_of z0 p.at) m0 ≡ r
        → mend_left p.at (root_of z p.at) m ≡ r)
    → Outcome m0 s0 z0 c0 p (settle_left p.at (root_of z0 p.at) m0)
    → ((m' : Store) (l r : Shape)
        → Stands m' (fill z0 (node c0 p l r))
        → IsShort z0 (node c0 p l r)
        → Rebalanced m'
            (fill z0 (node c0 p l r))
            (erase_rebalance k p.at (above z0) (root_of z0 p.at) m'))
    → Rebalanced m (fill z (node c p t s)) (erase_rebalance (suc k) (ptr t) p.at (root_of z p.at) m)
after_left m m0 k z z0 c c0 p t s s0 h black tall start begins (rises m' l r run leads short) goes =
    Rebalanced-after
      (left-rises m k z c p t s h black tall m' z0 c0 l r
        (begins (ok (up (root_of z0 p.at)) m') run) leads.stands)
      (Leads-trans start leads) (goes m' l r leads.stands short)
after_left m m0 k z z0 c c0 p t s s0 h black tall start begins (ends m' t' run leads balanced)
      goes =
    record {
      memory = m';
      tree = t';
      run = left-ends m k z c p t s h black tall m' (ptr t') (begins (ok (done (ptr t')) m') run);
      leads = Leads-trans start leads;
      balanced = balanced;
    }

pub round_left-Rebalanced :
    (m : Store) (k : ℕ) (z : Way) (c : Color) (p : Entry) (t s : Shape)
    → Fills z (suc k)
    → Stands m (fill z (node c p t s))
    → root_color t ≡ Color.black
    → IsEven t
    → IsAround (suc (height t)) (in_left c p s z)
    → Rebalanced m
        (fill z (node c p t s))
        (erase_rebalance (suc (suc k)) (ptr t) p.at (root_of z p.at) m)
round_left-Rebalanced m k z c p t leaf again h black even around = ground (arith, around)
round_left-Rebalanced m k z c p t (node Color.black o s1 s2) again h black even
      (same, calm, even_s, around) =
    let evens : IsEven s1 × IsEven s2 = ground arith in
    after_left m m (suc k) z z c c p t (node Color.black o s1 s2)
      (fill z (node c p t (node Color.black o s1 s2))) h black
      (here m (in_right c p t z) Color.black o s1 s2 h).given
      (Leads-refl m (fill z (node c p t (node Color.black o s1 s2))) h)
      (mend_left-black m z c Color.black p o t s1 s2 h)
      (settle_left-Outcome m z c p o t even black Color.black calm around s1 s2 h evens.0 evens.1
        (omega arith) (omega arith))
      (λ m' l r. again m' (node c p l r))
round_left-Rebalanced m k z Color.red p t (node Color.red o s1 s2) again h black even around =
    ground (arith, around)
round_left-Rebalanced m k z Color.black p t (node Color.red o leaf s2) again h black even around =
    ground (arith, around)
round_left-Rebalanced m k z Color.black p t (node Color.red o (node Color.red i a b) s2) again h
      black even around =
    ground (arith, around)
round_left-Rebalanced m k z Color.black p t (node Color.red o (node Color.black i a b) s2) again h
      black even (same, calm, even_s, around) =
    let s1 = node Color.black i a b in
    let z1 : Way = in_left Color.black o s2 z in
    let (m1, run, leads) = mend_left-red m z Color.black Color.red p o t s1 s2 h in
    let evens : IsEven a × IsEven b × IsEven s2 = ground arith in
    let around1 : IsAround (suc (height t)) z1 = (omega arith, tt, evens.2, around) in
    after_left m m1 (suc k) z z1 Color.black Color.red p t (node Color.red o s1 s2)
      (fill z (node Color.black o (node Color.red p t s1) s2)) h black
      (here m (in_right Color.black p t z) Color.red o s1 s2 h).given leads
      (λ r settled. run ∙ settled)
      (settle_left-Outcome m1 z1 Color.red p i t even black Color.black (refl, refl) around1 a b
        leads.stands evens.0 evens.1 (omega arith) (omega arith))
      (λ m' l r stands short. exit-red m' k z1 (node Color.red p l r) stands short refl)

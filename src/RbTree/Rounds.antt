-- ===== src/RbTree/Rounds.antt =====
-- How the rounds of `rb_insert_rebalance` end, and how they follow on one another.
use simple_timer.Prelude.{ℕ, suc, ◌≡◌, refl, sym, ◌∙◌, ◌⊎◌, inl, inr}
use mathlib.Core.Path.{subst}
use simple_timer.Machine.{Run, ok}
use simple_timer.Api.{Ptr}
use simple_timer.RbTree.{Color, Store, load, insert_rebalance}
use simple_timer.RbTree.Shape.{Entry, Shape, node, Way, top, ptr, fill, root_of, Stands, ptr-fill}
use simple_timer.RbTree.Leads.{Leads, Leads-trans}
use simple_timer.RbTree.Paint.{
  color_above, here, red_above-ok, root_given, blacken, ptr-blacken, blacken-Leads,
}
use simple_timer.RbTree.Balance.{
  height, IsEven, IsRedBlack, IsAround, IsJoint, fill-IsEven, blacken-IsRedBlack,
}

-- The run ends with a red-black tree of the same entries.
pub record Rebalanced (m : Store) (t : Shape) (r : Run Store Ptr) : Type 0 where
  pub memory : Store
  pub tree : Shape
  pub run : r ≡ ok (ptr tree) memory
  pub leads : Leads m t memory tree
  pub balanced : IsRedBlack tree

pub Rebalanced-after :
    {m m1 : Store} {t t1 : Shape} {r r1 : Run Store Ptr}
    → r ≡ r1
    → Leads m t m1 t1
    → Rebalanced m1 t1 r1
    → Rebalanced m t r
Rebalanced-after e s b = record {
  memory = b.memory;
  tree = b.tree;
  run = e ∙ b.run;
  leads = Leads-trans s b.leads;
  balanced = b.balanced;
}

pub color-cases : (c : Color) → (c ≡ Color.red) ⊎ (c ≡ Color.black)
color-cases Color.red = inl refl
color-cases Color.black = inr refl

-- The rounds from a red node at this place, on this fuel.
abbrev pub Again : Way → ℕ → Entry → Type 0
Again z fuel n =
    (m : Store) (l r : Shape)
    → Stands m (fill z (node Color.red n l r))
    → IsEven (node Color.red n l r)
    → IsAround (height l) z
    → Rebalanced m (fill z (node Color.red n l r)) (insert_rebalance fuel n.at (root_of z n.at) m)

-- The last round: nothing is red above.
pub exit-Rebalanced :
    (k : ℕ) (z : Way) (n : Entry) → color_above z ≡ Color.black → Again z (suc k) n
unfolding insert_rebalance load
exit-Rebalanced k z n calm m l r h even around =
    let t = node Color.red n l r in
    let at = here m z Color.red n l r h in
    let (m', run, s) = blacken-Leads m top (fill z t) (root_given m z t h at.given) h in
    record {
      memory = m';
      tree = blacken (fill z t);
      run =
          rw (at.live, red_above-ok m z t h, calm, sym (ptr-fill z t), run, ptr-blacken (fill z t));
      leads = s;
      balanced =
          blacken-IsRedBlack (fill z t)
            (fill-IsEven z t even around (subst (λ c. IsJoint c Color.red) (sym calm) tt));
    }

-- ===== src/RbTree/Leads.antt =====
-- What every step of the rebalancing of src/rbtree.c does to a tree in memory.
use simple_timer.Prelude.{ℕ, ◌+◌, ◌≡◌, refl, sym, ap, ◌∙◌, List, [], ◌∷◌, ◌++◌, arith}
use simple_timer.Api.{Ptr}
use simple_timer.RbTree.{Store}
use simple_timer.RbTree.Shape.{Entry, Shape, leaf, node, hit, copies, Stands, entries}

-- A tree with the same entries in the same order stands in the memory, and all else is unchanged.
pub record Leads (m : Store) (t : Shape) (m' : Store) (t' : Shape) : Type 0 where
  pub stands : Stands m' t'
  pub order : entries t' ≡ entries t
  pub kept : (a : Ptr) → copies a t ≡ 0 → m' a ≡ m a

abbrev pub tally : Ptr → List Entry → ℕ
tally a [] = 0
tally a (e ∷ es) = hit a e.at + tally a es

tally-append : (a : Ptr) (xs ys : List Entry) → tally a (xs ++ ys) ≡ tally a xs + tally a ys
tally-append a [] ys = omega arith
tally-append a (x ∷ xs) ys = omega (arith, tally-append a xs ys)

pub copies-entries : (a : Ptr) (t : Shape) → copies a t ≡ tally a (entries t)
copies-entries a leaf = refl
copies-entries a (node c e l r) =
    omega
      (arith, copies-entries a l, copies-entries a r, tally-append a (entries l) (e ∷ entries r))

pub copies-order : (t t' : Shape) → entries t' ≡ entries t → (a : Ptr) → copies a t' ≡ copies a t
copies-order t t' h a = copies-entries a t' ∙ ap (tally a) h ∙ sym (copies-entries a t)

pub Leads-trans :
    {m m1 m2 : Store} {t t1 t2 : Shape} → Leads m t m1 t1 → Leads m1 t1 m2 t2 → Leads m t m2 t2
Leads-trans {m} {m1} {m2} {t} {t1} {t2} g h = record {
  stands = h.stands;
  order = h.order ∙ g.order;
  kept = λ a n. h.kept a (copies-order t t1 g.order a ∙ n) ∙ g.kept a n;
}

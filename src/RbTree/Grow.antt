-- ===== src/RbTree/Grow.antt =====
-- `rb_insert` and `rb_search` of src/rbtree.c on a red-black tree in memory.
use mathlib.Core.Path.{subst}
use simple_timer.Prelude.{
  ℕ, suc, ◌+◌, ◌<◌, ◌≤◌, ◌≡◌, ◌≢◌, refl, sym, ap, ◌∙◌, some, inl, inr, arith, ne→eqb,
}
use simple_timer.Machine.{ok}
use simple_timer.Api.{Ptr, null}
use simple_timer.RbTree.{Color, Store, store, Found, descend, insert_rebalance, search, insert}
use simple_timer.RbTree.Shape.{
  Entry, Shape, leaf, node, Way, top, in_left, in_right, ptr, fill, above, cell, copies-fill,
  root_of, copies, Stands, entries,
}
use simple_timer.RbTree.Balance.{IsRedBlack, IsRedBlack-Within}
use simple_timer.RbTree.Ascending.{IsAscending, insert_entry, lookup, insert_entry-IsAscending}
use simple_timer.RbTree.Descent.{size, Present, Absent, descend-ends}
use simple_timer.RbTree.Frame.{put}
use simple_timer.RbTree.Link.{link, link-Stands}
use simple_timer.RbTree.Rebalance.{depth, rounds-Rebalanced}

-- A red-black tree in memory, with its keys in order.
pub record IsRbTree (m : Store) (t : Shape) : Type 0 where
  pub stands : Stands m t
  pub balanced : IsRedBlack t
  pub ascending : IsAscending (entries t)

pub IsRbTree-leaf : (m : Store) → IsRbTree m leaf
IsRbTree-leaf m = record {
  stands = record { tied = tt; apart = λ a. omega arith };
  balanced = (refl, tt);
  ascending = tt;
}

-- The tree after an insertion, and the memory around it.
pub record Inserted (m : Store) (t : Shape) (e : Entry) (m' : Store) (t' : Shape) : Type 0 where
  pub whole : IsRbTree m' t'
  pub order : entries t' ≡ insert_entry e (entries t)
  pub kept : (a : Ptr) → a ≢ e.at → copies a t ≡ 0 → m' a ≡ m a

pub size-fill : (z : Way) (t : Shape) → depth z + size t ≤ size (fill z t)
size-fill top t = omega arith
size-fill (in_left c e r up) t = omega (arith, size-fill up (node c e t r))
size-fill (in_right c e l up) t = omega (arith, size-fill up (node c e l t))

unused-fill :
    (z : Way) (e : Entry) (a : Ptr)
    → a ≢ e.at
    → copies a (fill z leaf) ≡ 0
    → copies a (fill z (node Color.red e leaf leaf)) ≡ 0
unused-fill z e a n o =
    ground (arith, n, o, copies-fill a z leaf, copies-fill a z (node Color.red e leaf leaf))

insert-run :
    (m m1 m2 : Store) (fuel : ℕ) (e : Entry) (root parent linked high : Ptr)
    → descend fuel e.key root null m ≡ ok (Found.below parent) m
    → e.at ≢ null
    → link e.at e.key parent root (put m e.at (cell Color.red e null null parent)) ≡ ok linked m1
    → insert_rebalance fuel e.at linked m1 ≡ ok high m2
    → insert e.at fuel e.key e.datum root m ≡ ok (some high) m2
unfolding insert store
insert-run m m1 m2 fuel e root parent linked high down given links balance =
    rw (down, ne→eqb e.at null given, links, balance)

module _ (m : Store) (k : ℕ) (e : Entry) (t : Shape) (h : IsRbTree m t) where
  abbrev Ends : Type 0
  Ends =
      (t' : Shape) × (m' : Store) × (insert e.at (suc (suc k)) e.key e.datum (ptr t) m
        ≡ ok (some (ptr t')) m')
      × Inserted m t e m' t'

  insert-present : Present m (suc (suc k)) e top t → Ends
  unfolding insert
  insert-present d =
      (t, m, rw d.run, record { whole = h; order = sym d.unchanged; kept = λ a n o. refl })

  -- The node goes in at its place, and the rebalancing ends.
  insert-absent :
      Absent m (suc (suc k)) e top t → e.at ≢ null → copies e.at t ≡ 0 → size t ≤ k → Ends
  insert-absent d given new enough =
      let way = d.way in
      let whole : IsRbTree m (fill way leaf) = subst (IsRbTree m) (sym d.old) h in
      let (m1, linked, stands, kept) =
        link-Stands m way e whole.stands given (ap (copies e.at) d.old ∙ new) d.aside in
      let w = IsRedBlack-Within way leaf whole.balanced in
      let b =
        rounds-Rebalanced way k e (omega (arith, size-fill way leaf, ap size d.old)) m1 leaf leaf
          stands (refl, (refl, refl), tt, tt) w.around in
      let order : entries b.tree ≡ insert_entry e (entries t) =
        b.leads.order ∙ ap entries d.new ∙ d.order in
      (
        b.tree,
        b.memory,
        insert-run m m1 b.memory (suc (suc k)) e (ptr t) (above way) (root_of way e.at) (ptr b.tree)
            d.run given (rw (sym (ap ptr d.old)) linked) b.run,
        record {
          whole = record {
            stands = b.leads.stands;
            balanced = b.balanced;
            ascending =
                subst IsAscending (sym order) (insert_entry-IsAscending e (entries t) h.ascending);
          };
          order = order;
          kept = λ a n o.
              let out = ap (copies a) d.old ∙ o in
              b.leads.kept a (unused-fill way e a n out) ∙ kept a n out;
        },
      )

-- On a red-black tree in memory with ascending keys, with a new node at an address that is not NULL
-- and not in the tree, and fuel for two rounds more than it has nodes, `rb_insert` ends without a
-- fault and returns the root of a red-black tree in memory whose entries, from left to right, are
-- the old ones with the new one in its place by the key, or the old ones if the key was there. The
-- memory outside the old tree and the new node is as it was.
pub insert-Inserted :
    (m : Store) (k : ℕ) (e : Entry) (t : Shape)
    → IsRbTree m t
    → e.at ≢ null
    → copies e.at t ≡ 0
    → size t ≤ k
    → (t' : Shape) × (m' : Store) × (insert e.at (k + 2) e.key e.datum (ptr t) m
        ≡ ok (some (ptr t')) m')
      × Inserted m t e m' t'
insert-Inserted m k e t h given new enough =
    let two : k + 2 ≡ suc (suc k) = omega arith in
    rw two (elim (descend-ends m (suc (suc k)) e top t h.stands.tied h.ascending tt (omega arith)) [
      | inl d ↦ insert-present m k e t h d
      | inr d ↦ insert-absent m k e t h d given new enough
    ])

-- `rb_search` finds what a look through the list of the entries finds.
pub search-lookup :
    (m : Store) (fuel key : ℕ) (t : Shape)
    → IsRbTree m t
    → size t < fuel
    → search fuel key (ptr t) m ≡ ok (lookup key (entries t)) m
unfolding search
search-lookup m fuel key t h enough =
    let e : Entry = record { at = null; key = key; datum = null } in
    elim (descend-ends m fuel e top t h.stands.tied h.ascending tt enough) [
      | inl d ↦ rw (d.run, d.lookup)
      | inr d ↦ rw (d.run, d.lookup)
    ]

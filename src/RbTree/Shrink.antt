-- ===== src/RbTree/Shrink.antt =====
-- `rb_erase` of src/rbtree.c on a red-black tree in memory.
use mathlib.Core.Path.{subst}
use simple_timer.Prelude.{
  ℕ, suc, ◌+◌, ◌≤◌, ◌≡◌, refl, sym, ap, ◌∙◌, some, none, ◌⊎◌, inl, inr, List, [], ◌∷◌, arith,
}
use simple_timer.Machine.{ok}
use simple_timer.Api.{Ptr, null}
use simple_timer.RbTree.{RbNode, Store, Found, load, descend}
use simple_timer.RbTree.Erase.{Gap, erase}
use simple_timer.RbTree.Shape.{
  Entry, Shape, node, top, ptr, fill, above, root_of, cell, hit, copies, entries, ptr-fill,
  copies-fill,
}
use simple_timer.RbTree.Leads.{tally, copies-entries}
use simple_timer.RbTree.Paint.{here}
use simple_timer.RbTree.Removal.{remove_entry, remove_entry-IsAscending}
use simple_timer.RbTree.Ascending.{IsAscending, lookup}
use simple_timer.RbTree.Descent.{size, Present, Absent, descend-ends}
use simple_timer.RbTree.Grow.{IsRbTree, size-fill}
use simple_timer.RbTree.Lookup.{length, size-entries}
use simple_timer.RbTree.Closing.{
  unlink, unlink-Unlinked, without, release-ok, Stands-without, mend, gap_of, mend-Rebalanced,
}

-- The tree after a removal, and the memory around it.
pub record Erased (m : Store) (t : Shape) (key : ℕ) (m' : Store) (t' : Shape) : Type 0 where
  pub whole : IsRbTree m' t'
  pub order : entries t' ≡ remove_entry key (entries t)
  pub freed : (lookup key (entries t) ≡ null) ⊎ (m' (lookup key (entries t)) ≡ none)
  pub kept : (a : Ptr) → copies a t ≡ 0 → m' a ≡ m a

length-remove_entry : (key : ℕ) (xs : List Entry) → length (remove_entry key xs) ≤ length xs
length-remove_entry key [] = omega arith
length-remove_entry key (x ∷ xs) = ground (arith, length-remove_entry key xs)

tally-remove_entry :
    (a : Ptr) (key : ℕ) (xs : List Entry) → tally a (remove_entry key xs) ≤ tally a xs
tally-remove_entry a key [] = omega arith
tally-remove_entry a key (x ∷ xs) = ground (arith, tally-remove_entry a key xs)

copies-removed :
    (a : Ptr) (key : ℕ) (t t' : Shape)
    → entries t' ≡ remove_entry key (entries t)
    → copies a t' ≤ copies a t
copies-removed a key t t' h = omega (
  arith,
  copies-entries a t,
  copies-entries a t',
  ap (tally a) h,
  tally-remove_entry a key (entries t),
)

without-other : (m : Store) (p a : Ptr) → hit a p ≡ 0 → without m p a ≡ m a
without-other m p a h = ground (arith, h)

without-same : (m : Store) (p : Ptr) → without m p p ≡ none
without-same m p = ground arith

erase-run :
    (m m1 m2 : Store) (fuel key : ℕ) (root high p r : Ptr) (o last : RbNode) (g : Gap)
    → root ≡ high
    → descend fuel key root null m ≡ ok (Found.at p) m
    → m p ≡ some o
    → unlink fuel p o.left o.right high m ≡ ok g m1
    → m1 p ≡ some last
    → mend fuel g (without m1 p) ≡ ok r m2
    → erase fuel key root m ≡ ok r m2
unfolding erase load
erase-run m m1 m2 fuel key root high p r o last g same found live unlinks there mends =
    rw (found, live, same, unlinks, release-ok m1 p last there, mends)

module _ (m : Store) (k : ℕ) (e : Entry) (t : Shape) (h : IsRbTree m t) (enough : size t ≤ k) where
  abbrev Ends : Type 0
  Ends =
      (t' : Shape) × (m' : Store) × (erase (suc (suc k)) e.key (ptr t) m ≡ ok (ptr t') m')
      × Erased m t e.key m' t'

  erase-missing : Absent m (suc (suc k)) e top t → Ends
  unfolding erase
  erase-missing d = (
    t,
    m,
    rw d.run,
    record { whole = h; order = sym d.missing; freed = inl d.lookup; kept = λ a n. refl },
  )

  erase-present : Present m (suc (suc k)) e top t → Ends
  erase-present d =
      let whole : IsRbTree m (fill d.way (node d.color d.entry d.left d.right)) =
        subst (IsRbTree m) (sym d.old) h in
      let at = here m d.way d.color d.entry d.left d.right whole.stands in
      let fits = size-fill d.way (node d.color d.entry d.left d.right) in
      let u =
        unlink-Unlinked m (suc (suc k)) d.way d.color d.entry d.left d.right whole.stands
          whole.balanced (omega (arith, ap size d.old)) in
      let (t', same, order) = d.cut u.tree u.order in
      let small : size (fill u.way u.rest) ≤ size t = omega (
        arith,
        ap size (u.same ∙ same),
        size-entries t,
        size-entries t',
        ap length order,
        length-remove_entry e.key (entries t),
      ) in
      let b =
        mend-Rebalanced (without u.memory d.entry.at) k u.way u.rest u.color
          (Stands-without u.memory d.entry.at (fill u.way u.rest) u.stands u.loose) u.even u.calm
          u.around (omega (arith, size-fill u.way u.rest)) in
      let sorted : entries b.tree ≡ remove_entry e.key (entries t) =
        b.leads.order ∙ ap entries (u.same ∙ same) ∙ order in
      (
        b.tree,
        b.memory,
        erase-run m u.memory b.memory (suc (suc k)) e.key (ptr t) (root_of d.way d.entry.at)
            d.entry.at (ptr b.tree) (cell d.color d.entry (ptr d.left) (ptr d.right) (above d.way))
            u.last (gap_of u.color u.way u.rest)
            (sym (ap ptr d.old) ∙ ptr-fill d.way (node d.color d.entry d.left d.right)) d.run
            at.live u.run u.live b.run,
        record {
          whole = record {
            stands = b.leads.stands;
            balanced = b.balanced;
            ascending =
                subst IsAscending (sym sorted)
                  (remove_entry-IsAscending e.key (entries t) h.ascending);
          };
          order = sorted;
          freed = inr (
              ap b.memory d.lookup
              ∙ b.leads.kept d.entry.at u.loose
              ∙ without-same u.memory d.entry.at);
          kept = λ a n.
              let none_old = ap (copies a) d.old ∙ n in
              let here_none = copies-fill a d.way (node d.color d.entry d.left d.right) in
              b.leads.kept a
                (omega (arith, n, ap (copies a) (u.same ∙ same), copies-removed a e.key t t' order))
              ∙ without-other u.memory d.entry.at a (omega arith)
              ∙ u.kept a none_old;
        },
      )

-- On a red-black tree in memory with ascending keys, on fuel for two rounds more than it has nodes,
-- `rb_erase` ends without a fault and returns the root of a red-black tree in memory whose entries,
-- from left to right, are the old ones without the one with the key. If there was one, its node is
-- freed; the memory outside the old tree is as it was.
pub erase-Erased :
    (m : Store) (k key : ℕ) (t : Shape)
    → IsRbTree m t
    → size t ≤ k
    → (t' : Shape) × (m' : Store) × (erase (k + 2) key (ptr t) m ≡ ok (ptr t') m')
      × Erased m t key m' t'
erase-Erased m k key t h enough =
    let e : Entry = record { at = null; key = key; datum = null } in
    let two : k + 2 ≡ suc (suc k) = omega arith in
    rw two (elim (descend-ends m (suc (suc k)) e top t h.stands.tied h.ascending tt (omega arith)) [
      | inl d ↦ erase-present m k e t h enough d
      | inr d ↦ erase-missing m k e t h enough d
    ])

-- ===== src/RbTree/Descent.antt =====
-- `rb_search_auxiliary` of src/rbtree.c as a way down into the tree.
use simple_timer.Prelude.{
  ℕ, zero, suc, ◌+◌, ◌<◌, ◌≡◌, refl, sym, ap, ◌∙◌, ◌⊎◌, inl, inr, ◌∷◌, ◌++◌, arith,
}
use simple_timer.Machine.{ok}
use simple_timer.Api.{null}
use simple_timer.RbTree.{Color, Store, Found, descend}
use simple_timer.RbTree.Search.{step-left, step-right, step-at, trichotomy, descend-leaf}
use simple_timer.RbTree.Shape.{
  Entry, Shape, leaf, node, Way, top, in_left, in_right, ptr, fill, above, Tied, entries,
}
use simple_timer.RbTree.Ascending.{
  IsAscending, insert_entry, lookup, part, insert_entry-left, insert_entry-right,
  insert_entry-present, lookup-left, lookup-right, lookup-at,
}
use simple_timer.RbTree.Removal.{
  remove_entry, remove_entry-left, remove_entry-right, remove_entry-at,
}

abbrev pub size : Shape → ℕ
size leaf = 0
size (node c e l r) = suc (size l + size r)

-- On which side of the node above the key belongs.
abbrev pub IsAside : ℕ → Way → Type 0
IsAside key top = Unit
IsAside key (in_left c p r up) = key < p.key
IsAside key (in_right c p l up) = p.key < key

-- The entry with this key is there, or it has its place at an end of the tree.
pub record Present (m : Store) (fuel : ℕ) (e : Entry) (z : Way) (t : Shape) : Type 0 where
  pub way : Way
  pub color : Color
  pub entry : Entry
  pub left : Shape
  pub right : Shape
  pub old : fill way (node color entry left right) ≡ fill z t
  pub run : descend fuel e.key (ptr t) (above z) m ≡ ok (Found.at entry.at) m
  pub lookup : lookup e.key (entries t) ≡ entry.at
  pub cut :
      (u : Shape)
      → entries u ≡ entries left ++ entries right
      → (t' : Shape) × (fill way u ≡ fill z t') × (entries t' ≡ remove_entry e.key (entries t))
  pub unchanged : insert_entry e (entries t) ≡ entries t

pub record Absent (m : Store) (fuel : ℕ) (e : Entry) (z : Way) (t : Shape) : Type 0 where
  pub way : Way
  pub grown : Shape
  pub run : descend fuel e.key (ptr t) (above z) m ≡ ok (Found.below (above way)) m
  pub lookup : lookup e.key (entries t) ≡ null
  pub aside : IsAside e.key way
  pub old : fill way leaf ≡ fill z t
  pub new : fill way (node Color.red e leaf leaf) ≡ fill z grown
  pub order : entries grown ≡ insert_entry e (entries t)
  pub missing : remove_entry e.key (entries t) ≡ entries t

pub descend-ends :
    (m : Store) (fuel : ℕ) (e : Entry) (z : Way) (t : Shape)
    → Tied m (above z) t
    → IsAscending (entries t)
    → IsAside e.key z
    → size t < fuel
    → Present m fuel e z t ⊎ Absent m fuel e z t
descend-ends m zero e z t tied order aside enough = ground (arith, enough)
descend-ends m (suc k) e z leaf tied order aside enough = inr (record {
  way = z;
  grown = node Color.red e leaf leaf;
  run = descend-leaf m k e.key null (above z) refl;
  lookup = refl;
  aside = aside;
  old = refl;
  new = refl;
  order = refl;
  missing = refl;
})
descend-ends m (suc k) e z (node c x l r) (given, live, l', r') order aside enough =
    let p = part (entries l) x (entries r) order in
    elim (trichotomy e.key x.key) [
      | inl lt ↦
          let run = step-left m given live k e.key (above z) lt in
          let same = lookup-left e.key x (entries l) (entries r) lt p.over in
          let removed = remove_entry-left e.key x (entries l) (entries r) lt p.over in
          let placed = insert_entry-left e x (entries l) (entries r) lt in
          elim (descend-ends m k e (in_left c x r z) l l' p.left lt (omega (arith, enough))) [
            | inl d ↦ inl (record {
              way = d.way;
              color = d.color;
              entry = d.entry;
              left = d.left;
              right = d.right;
              old = d.old;
              run = run ∙ d.run;
              lookup = same ∙ d.lookup;
              cut = λ u h.
                  let (t', whole, order) = d.cut u h in
                  (node c x t' r, whole, ap (λ xs. xs ++ (x ∷ entries r)) order ∙ sym removed);
              unchanged = placed ∙ ap (λ xs. xs ++ (x ∷ entries r)) d.unchanged;
            })
            | inr d ↦ inr (record {
              way = d.way;
              grown = node c x d.grown r;
              run = run ∙ d.run;
              lookup = same ∙ d.lookup;
              aside = d.aside;
              old = d.old;
              new = d.new;
              order = ap (λ xs. xs ++ (x ∷ entries r)) d.order ∙ sym placed;
              missing = removed ∙ ap (λ xs. xs ++ (x ∷ entries r)) d.missing;
            })
          ]
      | inr (inl e') ↦ inl (record {
        way = z;
        color = c;
        entry = x;
        left = l;
        right = r;
        old = refl;
        cut = λ u h.
            (u, refl, h ∙ sym (remove_entry-at e.key x (entries l) (entries r) (sym e') p.under));
        run = step-at m given live k e.key (above z) (sym e');
        lookup = lookup-at e.key x (entries l) (entries r) (sym e') p.under;
        unchanged = insert_entry-present e x (entries l) (entries r) (sym e') p.under;
      })
      | inr (inr gt) ↦
          let run = step-right m given live k e.key (above z) gt in
          let same = lookup-right e.key x (entries l) (entries r) gt p.under in
          let removed = remove_entry-right e.key x (entries l) (entries r) gt p.under in
          let placed = insert_entry-right e x (entries l) (entries r) gt p.under in
          elim (descend-ends m k e (in_right c x l z) r r' p.right gt (omega (arith, enough))) [
            | inl d ↦ inl (record {
              way = d.way;
              color = d.color;
              entry = d.entry;
              left = d.left;
              right = d.right;
              old = d.old;
              run = run ∙ d.run;
              lookup = same ∙ d.lookup;
              cut = λ u h.
                  let (t', whole, order) = d.cut u h in
                  (node c x l t', whole, ap (λ xs. entries l ++ (x ∷ xs)) order ∙ sym removed);
              unchanged = placed ∙ ap (λ xs. entries l ++ (x ∷ xs)) d.unchanged;
            })
            | inr d ↦ inr (record {
              way = d.way;
              grown = node c x l d.grown;
              run = run ∙ d.run;
              lookup = same ∙ d.lookup;
              aside = d.aside;
              old = d.old;
              new = d.new;
              order = ap (λ xs. entries l ++ (x ∷ xs)) d.order ∙ sym placed;
              missing = removed ∙ ap (λ xs. entries l ++ (x ∷ xs)) d.missing;
            })
          ]
    ]

-- ===== src/RbTree/Lookup.antt =====
-- `rb_search` of src/rbtree.c after `rb_insert`.
use simple_timer.Prelude.{
  ℕ, suc, ◌+◌, ◌<◌, ◌≤◌, ◌≡◌, ◌≢◌, refl, sym, ap, ◌∙◌, some, List, [], ◌∷◌, ◌++◌, arith, ◌==◌,
  if◌then◌else◌,
}
use simple_timer.Machine.{Run, ok}
use simple_timer.Api.{Ptr, null}
use simple_timer.RbTree.{Store, search, insert}
use simple_timer.RbTree.Shape.{Entry, Shape, leaf, node, ptr, Tied, copies, entries}
use simple_timer.RbTree.Ascending.{IsAscending, insert_entry, lookup, IsGiven, lookup-insert_entry}
use simple_timer.RbTree.Descent.{size}
use simple_timer.RbTree.Grow.{IsRbTree, Inserted, insert-Inserted, search-lookup}

abbrev pub length : List Entry → ℕ
length [] = 0
length (x ∷ xs) = suc (length xs)

length-append : (xs ys : List Entry) → length (xs ++ ys) ≡ length xs + length ys
length-append [] ys = omega arith
length-append (x ∷ xs) ys = omega (arith, length-append xs ys)

length-insert_entry : (e : Entry) (xs : List Entry) → length (insert_entry e xs) ≤ length xs + 1
length-insert_entry e [] = omega arith
length-insert_entry e (x ∷ xs) = ground (arith, length-insert_entry e xs)

pub size-entries : (t : Shape) → size t ≡ length (entries t)
size-entries leaf = refl
size-entries (node c e l r) =
    omega (arith, size-entries l, size-entries r, length-append (entries l) (e ∷ entries r))

-- An insertion adds one node at most.
pub size-Inserted :
    (m m' : Store) (t t' : Shape) (e : Entry) → Inserted m t e m' t' → size t' ≤ size t + 1
size-Inserted m m' t t' e i =
    omega
      (arith, size-entries t, size-entries t', ap length i.order, length-insert_entry e (entries t))

IsGiven-append : (xs ys : List Entry) → IsGiven xs → IsGiven ys → IsGiven (xs ++ ys)
IsGiven-append [] ys g h = h
IsGiven-append (x ∷ xs) ys g h = (g.0, IsGiven-append xs ys g.1 h)

entries-IsGiven : (m : Store) (q : Ptr) (t : Shape) → Tied m q t → IsGiven (entries t)
entries-IsGiven m q leaf h = tt
entries-IsGiven m q (node c e l r) (given, _, l', r') =
    IsGiven-append (entries l) (e ∷ entries r) (entries-IsGiven m e.at l l')
      (given, entries-IsGiven m e.at r r')

abbrev value : Run Store Ptr → Ptr
value (ok a m) = a
value _ = null

lookup-absent :
    (key : ℕ) (e : Entry) (xs : List Entry)
    → IsGiven xs
    → IsAscending xs
    → lookup e.key xs ≡ null
    → lookup key (insert_entry e xs) ≡ (if key == e.key then e.at else lookup key xs)
lookup-absent key e xs given h none = ground (arith, none, lookup-insert_entry key e xs given h)

-- On a red-black tree in memory with ascending keys, with a new node at an address that is not NULL
-- and not in the tree, and fuel for the insertion and for the searches after it, if `rb_search`
-- finds nothing for the new key and `p` for a key, then `rb_insert` ends without a fault, and
-- `rb_search` in the new tree finds the new node for the new key and still `p` for any other key.
pub search-insert :
    (m : Store) (k fuel key : ℕ) (e : Entry) (t : Shape) (p : Ptr)
    → IsRbTree m t
    → e.at ≢ null
    → copies e.at t ≡ 0
    → size t ≤ k
    → size t + 1 < fuel
    → search fuel e.key (ptr t) m ≡ ok null m
    → search fuel key (ptr t) m ≡ ok p m
    → (t' : Shape) × (m' : Store) × (insert e.at (k + 2) e.key e.datum (ptr t) m
        ≡ ok (some (ptr t')) m')
      × (search fuel key (ptr t') m' ≡ ok (if key == e.key then e.at else p) m')
search-insert m k fuel key e t p h given new enough fuel_enough absent before =
    let (t', m', run, i) = insert-Inserted m k e t h given new enough in
    let bound = size-Inserted m m' t t' e i in
    let none : lookup e.key (entries t) ≡ null =
      ap value (sym (search-lookup m fuel e.key t h (omega arith)) ∙ absent) in
    let was : lookup key (entries t) ≡ p =
      ap value (sym (search-lookup m fuel key t h (omega arith)) ∙ before) in
    let now : lookup key (entries t') ≡ (if key == e.key then e.at else p) =
      ap (lookup key) i.order
      ∙ lookup-absent key e (entries t) (entries-IsGiven m null t h.stands.tied) h.ascending none
      ∙ ap (λ q. if key == e.key then e.at else q) was in
    (t', m', run, search-lookup m' fuel key t' i.whole (omega arith) ∙ ap (λ q. ok q m') now)

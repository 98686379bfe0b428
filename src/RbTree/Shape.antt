-- ===== src/RbTree/Shape.antt =====
-- What a red-black tree of src/rbtree.c is in memory: a shape of entries, the nodes that hold it
-- with their parents, and a way down into it.
use simple_timer.Prelude.{
  ℕ, ◌+◌, ◌≤◌, ◌≡◌, ◌≢◌, refl, ap, some, List, [], ◌∷◌, ◌++◌, arith, ◌==◌, if◌then◌else◌,
}
use simple_timer.Api.{Ptr, null}
use simple_timer.RbTree.{Color, RbNode, Store}

-- A node's address, key and data.
pub record Entry : Type 0 where
  pub at : Ptr
  pub key : ℕ
  pub datum : Ptr

pub data Shape : Type 0 where
  leaf : Shape
  node : Color → Entry → Shape → Shape → Shape

-- The way from a subtree up to the root: at each step the node above, and its other child.
pub data Way : Type 0 where
  top : Way
  in_left : Color → Entry → Shape → Way → Way
  in_right : Color → Entry → Shape → Way → Way

abbrev pub ptr : Shape → Ptr
ptr leaf = null
ptr (node c e l r) = e.at

abbrev pub fill : Way → Shape → Shape
fill top t = t
fill (in_left c e r up) t = fill up (node c e t r)
fill (in_right c e l up) t = fill up (node c e l t)

-- The node above, or NULL.
abbrev pub above : Way → Ptr
above top = null
above (in_left c e r up) = e.at
above (in_right c e l up) = e.at

-- The root, where `p` is at the end of the way.
abbrev pub root_of : Way → Ptr → Ptr
root_of top p = p
root_of (in_left c e r up) p = root_of up e.at
root_of (in_right c e l up) p = root_of up e.at

abbrev pub cell : Color → Entry → (left right parent : Ptr) → RbNode
cell c e left right parent = record {
  left = left;
  right = right;
  parent = parent;
  key = e.key;
  datum = e.datum;
  color = c;
}

-- The nodes of the shape are in the memory, below the parent `q`.
abbrev pub Tied : Store → Ptr → Shape → Type 0
Tied m q leaf = Unit
Tied m q (node c e l r) =
    (e.at ≢ null) × (m e.at ≡ some (cell c e (ptr l) (ptr r) q)) × Tied m e.at l × Tied m e.at r

-- The nodes on the way up and their other children are in the memory, `p` at the end of the way.
abbrev pub TiedUp : Store → Way → Ptr → Type 0
TiedUp m top p = Unit
TiedUp m (in_left c e r up) p =
    (e.at ≢ null)
    × (m e.at ≡ some (cell c e p (ptr r) (above up)))
    × Tied m e.at r
    × TiedUp m up e.at
TiedUp m (in_right c e l up) p =
    (e.at ≢ null)
    × (m e.at ≡ some (cell c e (ptr l) p (above up)))
    × Tied m e.at l
    × TiedUp m up e.at

abbrev pub hit : Ptr → Ptr → ℕ
hit a b = if a == b then 1 else 0

-- How often an address stands in the shape.
abbrev pub copies : Ptr → Shape → ℕ
copies a leaf = 0
copies a (node c e l r) = hit a e.at + (copies a l + copies a r)

abbrev pub copies_up : Ptr → Way → ℕ
copies_up a top = 0
copies_up a (in_left c e r up) = hit a e.at + (copies a r + copies_up a up)
copies_up a (in_right c e l up) = hit a e.at + (copies a l + copies_up a up)

-- The root at `ptr t` leads to this tree, in which no two nodes have one address.
pub record Stands (m : Store) (t : Shape) : Type 0 where
  pub tied : Tied m null t
  pub apart : (a : Ptr) → copies a t ≤ 1

-- The entries in the order of a walk from left to right.
abbrev pub entries : Shape → List Entry
entries leaf = []
entries (node c e l r) = entries l ++ (e ∷ entries r)

pub ptr-fill : (z : Way) (t : Shape) → ptr (fill z t) ≡ root_of z (ptr t)
ptr-fill top t = refl
ptr-fill (in_left c e r up) t = ptr-fill up (node c e t r)
ptr-fill (in_right c e l up) t = ptr-fill up (node c e l t)

pub copies-fill : (a : Ptr) (z : Way) (t : Shape) → copies a (fill z t) ≡ copies_up a z + copies a t
copies-fill a top t = omega arith
copies-fill a (in_left c e r up) t = omega (arith, copies-fill a up (node c e t r))
copies-fill a (in_right c e l up) t = omega (arith, copies-fill a up (node c e l t))

pub entries-fill :
    (z : Way) (t u : Shape) → entries t ≡ entries u → entries (fill z t) ≡ entries (fill z u)
entries-fill top t u h = h
entries-fill (in_left c e r up) t u h =
    entries-fill up (node c e t r) (node c e u r) (ap (λ xs. xs ++ (e ∷ entries r)) h)
entries-fill (in_right c e l up) t u h =
    entries-fill up (node c e l t) (node c e l u) (ap (λ xs. entries l ++ (e ∷ xs)) h)

-- A whole tree in memory is a subtree and a way up from it.
pub Tied-split :
    (m : Store) (z : Way) (t : Shape)
    → Tied m null (fill z t)
    → TiedUp m z (ptr t) × Tied m (above z) t
Tied-split m top t h = (tt, h)
Tied-split m (in_left c e r up) t h =
    let (out, (given, here, l, r')) = Tied-split m up (node c e t r) h in
    ((given, here, r', out), l)
Tied-split m (in_right c e l up) t h =
    let (out, (given, here, l', r)) = Tied-split m up (node c e l t) h in
    ((given, here, l', out), r)

pub Tied-join :
    (m : Store) (z : Way) (t : Shape)
    → TiedUp m z (ptr t)
    → Tied m (above z) t
    → Tied m null (fill z t)
Tied-join m top t out h = h
Tied-join m (in_left c e r up) t (given, here, r', out) h =
    Tied-join m up (node c e t r) out (given, here, h, r')
Tied-join m (in_right c e l up) t (given, here, l', out) h =
    Tied-join m up (node c e l t) out (given, here, l', h)

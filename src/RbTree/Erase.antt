-- ===== src/RbTree/Erase.antt =====
-- `rb_erase` and `rb_erase_rebalance` of src/rbtree.c.
use simple_timer.Prelude.{ℕ, zero, suc, Bool, true, ◌&&◌, ◌||◌, not, none, ◌==◌, if◌then◌else◌}
use simple_timer.Machine.{Run, out_of_fuel, pure, ◌>>=◌, ◌>>◌}
use simple_timer.Api.{Ptr, null}
use simple_timer.RbTree.{
  Color, Act, at, below, is_red, load, store, set_left, set_right, set_parent, set_color,
  rotate_left, rotate_right, descend,
}

-- `!p || p->color == BLACK`.
unfoldable pub black_at : Ptr → Act Bool
unfolding load
black_at p = if p == null then pure true else do x ← load p; pure (not (is_red x.color))

-- `if(p) p->color = BLACK`.
unfoldable pub blacken : Ptr → Act (Unit {0})
unfolding set_color
blacken p = if p == null then pure tt else set_color p Color.black

-- What one round leaves: the root, and whether the loop goes on from the parent.
pub data Mended : Type 0 where
  up : Ptr → Mended
  done : Ptr → Mended

-- The end of a round where the sibling has a red child on the far side.
unfoldable pub close_left : (parent root : Ptr) → Act Mended
unfolding load set_color rotate_left blacken
close_left parent root = do
  p ← load parent
  set_color p.right p.color
  set_color parent Color.black
  other ← load p.right
  blacken other.right
  top ← rotate_left parent root
  blacken top
  pure (Mended.done top)

-- The rest of a round once the sibling is black.
unfoldable pub settle_left : (parent root : Ptr) → Act Mended
unfolding load set_color rotate_right black_at blacken close_left
settle_left parent root = do
  p ← load parent
  other ← load p.right
  left ← black_at other.left
  right ← black_at other.right
  if left && right then (do set_color p.right Color.red; pure (Mended.up root)) else (do
    top ←
        if right
        then (do blacken other.left; set_color p.right Color.red; rotate_right p.right root)
        else pure root
    close_left parent top)

-- The round for a `node` that is the left child of `parent`.
unfoldable pub mend_left : (parent root : Ptr) → Act Mended
unfolding load set_color rotate_left settle_left
mend_left parent root = do
  p ← load parent
  other ← load p.right
  top ←
      if is_red other.color
      then (do set_color p.right Color.black; set_color parent Color.red; rotate_left parent root)
      else pure root
  settle_left parent top

-- The end of a round where the sibling has a red child on the far side.
unfoldable pub close_right : (parent root : Ptr) → Act Mended
unfolding load set_color rotate_right blacken
close_right parent root = do
  p ← load parent
  set_color p.left p.color
  set_color parent Color.black
  other ← load p.left
  blacken other.left
  top ← rotate_right parent root
  blacken top
  pure (Mended.done top)

-- The rest of a round once the sibling is black.
unfoldable pub settle_right : (parent root : Ptr) → Act Mended
unfolding load set_color rotate_left black_at blacken close_right
settle_right parent root = do
  p ← load parent
  other ← load p.left
  left ← black_at other.left
  right ← black_at other.right
  if left && right then (do set_color p.left Color.red; pure (Mended.up root)) else (do
    top ←
        if left
        then (do blacken other.right; set_color p.left Color.red; rotate_left p.left root)
        else pure root
    close_right parent top)

-- The round for a `node` that is not.
unfoldable pub mend_right : (parent root : Ptr) → Act Mended
unfolding load set_color rotate_right settle_right
mend_right parent root = do
  p ← load parent
  other ← load p.left
  top ←
      if is_red other.color
      then (do set_color p.left Color.black; set_color parent Color.red; rotate_right parent root)
      else pure root
  settle_right parent top

-- `rb_erase_rebalance`, on fuel.
unfoldable pub erase_rebalance : (fuel : ℕ) (node parent root : Ptr) → Act Ptr
unfolding load black_at blacken mend_left mend_right
erase_rebalance zero node parent root = λ _. out_of_fuel
erase_rebalance (suc k) node parent root = do
  dark ← black_at node
  if dark && not (node == root)
      then (do
        p ← load parent
        result ← if p.left == node then mend_left parent root else mend_right parent root
        elim result [
          | done top ↦ pure top
          | up top ↦ (do q ← load parent; erase_rebalance k parent q.parent top)
        ])
      else (do blacken node; pure root)

-- `while((left = node->left) != NULL) node = left`, on fuel.
unfoldable pub leftmost : (fuel : ℕ) → Ptr → Act Ptr
unfolding load
leftmost zero node = λ _. out_of_fuel
leftmost (suc k) node = do n ← load node; if n.left == null then pure node else leftmost k n.left

-- `new` takes the place of `old` below `parent`, or is the root.
unfoldable pub replace_child : (old new parent root : Ptr) → Act Ptr
unfolding load set_left set_right
replace_child old new parent root = if parent == null then pure new else do
  p ← load parent
  if p.left == old then set_left parent new else set_right parent new
  pure root

-- `free`.
unfoldable pub release : Ptr → Act (Unit {0})
unfolding load
release p = do x ← load p; λ m. Run.ok tt λ a. if a == p then none else m a

-- What is left to do when a node has been unlinked: its colour, its child and the child's parent.
pub record Gap : Type 0 where
  pub color : Color
  pub child : Ptr
  pub parent : Ptr
  pub root : Ptr

-- A node with two children: its successor takes its place.
unfoldable pub unlink_inner : (fuel : ℕ) (old root : Ptr) → Act Gap
unfolding load store set_parent leftmost replace_child
unlink_inner fuel old root = do
  o ← load old
  node ← leftmost fuel o.right
  n ← load node
  if n.right == null then pure tt else set_parent n.right n.parent
  top ← replace_child node n.right n.parent root
  o ← load old
  m ← load node
  store node (record m { parent = o.parent; color = o.color; right = o.right; left = o.left })
  top ← replace_child old node o.parent top
  set_parent o.left node
  if o.right == null then pure tt else set_parent o.right node
  pure (record {
    color = n.color;
    child = n.right;
    parent = if n.parent == old then node else n.parent;
    root = top;
  })

-- A node with at most one child: the child takes its place.
unfoldable pub unlink_outer : (old root : Ptr) → Act Gap
unfolding load set_parent replace_child
unlink_outer old root = do
  n ← load old
  let child = if n.left == null then n.right else n.left
  if child == null then pure tt else set_parent child n.parent
  top ← replace_child old child n.parent root
  pure (record { color = n.color; child = child; parent = n.parent; root = top })

-- `rb_erase`.
unfoldable pub erase : (fuel key : ℕ) (root : Ptr) → Act Ptr
unfolding load descend erase_rebalance release unlink_inner unlink_outer
erase fuel key root = do
  found ← descend fuel key root null
  elim found [
    | below parent ↦ pure root
    | at old ↦ (do
      o ← load old
      gap ←
          if o.left == null || o.right == null
          then unlink_outer old root
          else unlink_inner fuel old root
      release old
      if is_red gap.color
          then pure gap.root
          else erase_rebalance fuel gap.child gap.parent gap.root)
  ]

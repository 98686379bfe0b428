-- ===== src/RbTree.antt =====
-- src/rbtree.c and src/rbtree.h: the red-black tree, pointer by pointer, over an explicit memory.
-- Keys are the non-negative `int`s, the only ones that src/timer.c uses, on which the subtraction
-- `node->key - key` does not overflow.
mod Tests
pub mod Search
pub mod Erase
pub mod Unchanged
pub mod First
pub mod Shape
pub mod Frame
pub mod Leads
pub mod RotateRight
pub mod RotateLeft
pub mod Paint
pub mod Balance
pub mod RaiseLeft
pub mod RaiseRight
pub mod Ascending
pub mod Removal
pub mod Descent
pub mod Link
pub mod Grow
pub mod Lookup
pub mod Mend
pub mod MendLeft
pub mod MendRight
pub mod Short
pub mod ShortLeft
pub mod ShortRight
pub mod FillLeft
pub mod FillRight
pub mod Fill
pub mod Cut
pub mod Successor
pub mod Unlink
pub mod Swap
pub mod Exchange
pub mod Inner
pub mod Closing
pub mod Shrink
pub mod Rounds
pub mod RoundLeft
pub mod RoundRight
pub mod Rebalance
use simple_timer.Prelude.{ℕ, zero, suc, Bool, Option, none, some, ◌==◌, if◌then◌else◌, ltb}
use simple_timer.Machine.{Run, out_of_fuel, Cmd, pure, deref, ◌>>=◌, ◌>>◌}
use simple_timer.Api.{Ptr, null}

pub data Color : Type 0 where
  red black : Color

-- `data` of the source is `datum`.
pub record RbNode : Type 0 where
  pub left : Ptr
  pub right : Ptr
  pub parent : Ptr
  pub key : ℕ
  pub datum : Ptr
  pub color : Color

-- `none` where no live node stands.
abbrev pub Store : Type 0
Store = Ptr → Option RbNode

abbrev pub Act : Type 0 → Type 0
Act = Cmd Store

abbrev pub is_red : Color → Bool
is_red Color.red = Bool.true
is_red Color.black = Bool.false

unfoldable pub load : Ptr → Act RbNode
load p m = deref (m p) m

unfoldable pub store : Ptr → RbNode → Act (Unit {0})
store p x m = Run.ok tt λ a. if a == p then some x else m a

-- Assignments to a field.
unfoldable pub set_left : Ptr → Ptr → Act (Unit {0})
unfolding load store
set_left p q = do x ← load p; store p (record x { left = q })

unfoldable pub set_right : Ptr → Ptr → Act (Unit {0})
unfolding load store
set_right p q = do x ← load p; store p (record x { right = q })

unfoldable pub set_parent : Ptr → Ptr → Act (Unit {0})
unfolding load store
set_parent p q = do x ← load p; store p (record x { parent = q })

unfoldable pub set_color : Ptr → Color → Act (Unit {0})
unfolding load store
set_color p c = do x ← load p; store p (record x { color = c })

-- The parent of `old` takes `new` as the child in its place, or `new` becomes the root.
unfoldable pub hang : (new old parent root : Ptr) → Act Ptr
unfolding load set_left set_right
hang new old parent root = if parent == null then pure new else do
  p ← load parent
  if p.right == old then set_right parent new else set_left parent new
  pure root

unfoldable pub rotate_left : (node root : Ptr) → Act Ptr
unfolding load set_left set_right set_parent hang
rotate_left node root = do
  n ← load node
  r ← load n.right
  set_right node r.left
  if r.left == null then pure tt else set_parent r.left node
  set_left n.right node
  m ← load node
  set_parent n.right m.parent
  top ← hang n.right node m.parent root
  set_parent node n.right
  pure top

unfoldable pub rotate_right : (node root : Ptr) → Act Ptr
unfolding load set_left set_right set_parent hang
rotate_right node root = do
  n ← load node
  l ← load n.left
  set_left node l.right
  if l.right == null then pure tt else set_parent l.right node
  set_right n.left node
  m ← load node
  set_parent n.left m.parent
  top ← hang n.left node m.parent root
  set_parent node n.left
  pure top

-- `uncle && uncle->color == RED`.
unfoldable pub red_at : Ptr → Act Bool
unfolding load
red_at p = if p == null then pure Bool.false else do x ← load p; pure (is_red x.color)

-- An uncle that is red: the three change colour.
unfoldable pub recolor : (uncle parent gparent : Ptr) → Act (Unit {0})
unfolding set_color
recolor uncle parent gparent = do
  set_color uncle Color.black
  set_color parent Color.black
  set_color gparent Color.red

-- `rb_insert_rebalance`, on fuel. After a rotation the loop goes on from the node that is now the
-- lower of the two.
unfoldable pub insert_rebalance : (fuel : ℕ) (node root : Ptr) → Act Ptr
unfolding load set_color rotate_left rotate_right red_at recolor
insert_rebalance zero node root = λ _. out_of_fuel
insert_rebalance (suc k) node root = do
  n ← load node
  rising ← red_at n.parent
  if rising
      then (do
        p ← load n.parent
        g ← load p.parent
        if n.parent == g.left
            then (do
              reds ← red_at g.right
              if reds
                  then (do recolor g.right n.parent p.parent; insert_rebalance k p.parent root)
                  else if p.right == node
                  then (do
                    top ← rotate_left n.parent root
                    set_color node Color.black
                    set_color p.parent Color.red
                    top ← rotate_right p.parent top
                    insert_rebalance k n.parent top)
                  else (do
                    set_color n.parent Color.black
                    set_color p.parent Color.red
                    top ← rotate_right p.parent root
                    insert_rebalance k node top))
            else (do
              reds ← red_at g.left
              if reds
                  then (do recolor g.left n.parent p.parent; insert_rebalance k p.parent root)
                  else if p.left == node
                  then (do
                    top ← rotate_right n.parent root
                    set_color node Color.black
                    set_color p.parent Color.red
                    top ← rotate_left p.parent top
                    insert_rebalance k n.parent top)
                  else (do
                    set_color n.parent Color.black
                    set_color p.parent Color.red
                    top ← rotate_left p.parent root
                    insert_rebalance k node top)))
      else (do set_color root Color.black; pure root)

-- Where a search ends: at the node with the key, or at the node below which the key belongs.
pub data Found : Type 0 where
  at : Ptr → Found
  below : Ptr → Found

-- `rb_search_auxiliary` from `node`, with its `parent`, on fuel.
unfoldable pub descend : (fuel key : ℕ) (node parent : Ptr) → Act Found
unfolding load
descend zero key node parent = λ _. out_of_fuel
descend (suc k) key node parent = if node == null then pure (Found.below parent) else do
  n ← load node
  if ltb key n.key
      then descend k key n.left node
      else if ltb n.key key
      then descend k key n.right node
      else pure (Found.at node)

-- `rb_search`: NULL for a key that is not there.
unfoldable pub search : (fuel key : ℕ) (root : Ptr) → Act Ptr
unfolding descend
search fuel key root = do
  found ← descend fuel key root null
  elim found [ at p ↦ pure p | below p ↦ pure null ]

-- `rb_insert`, where `malloc` returns `fresh`. `none` is the exit of the process after `malloc` has
-- failed.
unfoldable pub insert : (fresh fuel key : ℕ) (datum root : Ptr) → Act (Option Ptr)
unfolding load store set_left set_right insert_rebalance descend
insert fresh fuel key datum root = do
  found ← descend fuel key root null
  elim found [
    | at p ↦ pure (some root)
    | below parent ↦ if fresh == null then pure none else do
      store fresh (record {
        left = null;
        right = null;
        parent = parent;
        key = key;
        datum = datum;
        color = Color.red;
      })
      top ← if parent == null then pure fresh else do
        p ← load parent
        if ltb key p.key then set_left parent fresh else set_right parent fresh
        pure root
      top ← insert_rebalance fuel fresh top
      pure (some top)
  ]

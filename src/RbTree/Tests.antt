-- ===== src/RbTree/Tests.antt =====
-- A tree that `rb_insert` builds, and the theorem on `rb_search` at one.
mod Growing
use simple_timer.Prelude.{◌≡◌, refl, Option, none, some, ◌==◌, if◌then◌else◌, arith}
use simple_timer.Machine.{Run, ok, ◌>>◌}
use simple_timer.Api.{Ptr}
use simple_timer.RbTree.{
  RbNode, Store, Act, black, red, load, store, set_left, set_right, set_parent, set_color, hang,
  rotate_left, rotate_right, red_at, recolor, insert_rebalance, descend, search, insert,
}
use simple_timer.RbTree.Search.{Tree, leaf, node, Holds, IsOrdered, search-holder}
use simple_timer.RbTree.Unchanged.{insert-present, erase-absent}
use simple_timer.RbTree.Erase.{
  erase, erase_rebalance, release, unlink_inner, unlink_outer, leftmost, replace_child,
}

abbrev root_node : RbNode
root_node = record { left = 10; right = 30; parent = 0; key = 2; datum = 7; color = black }

abbrev left_node : RbNode
left_node = record { left = 0; right = 0; parent = 20; key = 1; datum = 7; color = red }

abbrev right_node : RbNode
right_node = record { left = 0; right = 0; parent = 20; key = 3; datum = 7; color = red }

abbrev three_nodes : Store
three_nodes p =
    if p == 20
    then some root_node
    else if p == 10
    then some left_node
    else if p == 30
    then some right_node
    else none

abbrev three_tree : Tree
three_tree = node 20 root_node (node 10 left_node leaf leaf) (node 30 right_node leaf leaf)

three_tree-Holds : Holds three_nodes 20 three_tree
three_tree-Holds = (
  refl,
  omega arith,
  refl,
  (refl, omega arith, refl, refl, refl),
  (refl, omega arith, refl, refl, refl),
)

three_tree-IsOrdered : IsOrdered three_tree
three_tree-IsOrdered =
    ((omega arith, tt, tt), (omega arith, tt, tt), (tt, tt, tt, tt), (tt, tt, tt, tt))

search-holder_example : search 9 3 20 three_nodes ≡ ok 30 three_nodes
search-holder_example =
    search-holder three_nodes 9 3 three_tree 20 three_tree-Holds three_tree-IsOrdered (omega arith)

-- The keys 1, 2 and 3 in this order: the root is rotated, and 2 is the new root.
abbrev insert_three : Act (Option Ptr)
insert_three = do insert 10 9 1 7 0; insert 20 9 2 7 10; insert 30 9 3 7 10

abbrev node_at : Ptr → Run Store (Option Ptr) → Option RbNode
node_at p (ok a m) = m p
node_at p _ = none

inserts_three :
    (node_at 20 (insert_three λ p. none) ≡ some root_node)
    × (node_at 10 (insert_three λ p. none) ≡ some left_node)
    × (node_at 30 (insert_three λ p. none) ≡ some right_node)
unfolding insert load store set_left set_right set_parent set_color hang rotate_left rotate_right
    red_at recolor insert_rebalance descend
inserts_three = (refl, refl, refl)

-- To erase the key of the root puts the node of the next key in its place.
abbrev root_and_nodes : Run Store Ptr → Option (Ptr × Option RbNode × Option RbNode × Option RbNode)
root_and_nodes (ok a m) = some (a, m 10, m 20, m 30)
root_and_nodes _ = none

erases_root :
    root_and_nodes (erase 9 2 20 three_nodes)
    ≡ some (
      30,
      some (record left_node { parent = 30 }),
      none,
      some (record right_node { left = 10; parent = 0; color = black }),
    )
unfolding erase erase_rebalance release unlink_inner unlink_outer leftmost replace_child descend
    load store set_left set_right set_parent
erases_root = refl

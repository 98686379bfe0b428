-- ===== src/RbTree/Exchange.antt =====
-- The run of `rb_erase` of src/rbtree.c that takes out a node with two children.
use simple_timer.Prelude.{ℕ, ◌≡◌, sym, some, arith, ◌==◌, if◌then◌else◌}
use simple_timer.Machine.{ok}
use simple_timer.Api.{null}
use simple_timer.RbTree.{Color, Store, load, store}
use simple_timer.RbTree.Erase.{leftmost, unlink_inner}
use simple_timer.RbTree.Shape.{
  Entry, Shape, node, Way, top, in_left, in_right, ptr, above, root_of, cell, copies_up,
}
use simple_timer.RbTree.Paint.{here}
use simple_timer.RbTree.Cut.{Cut}
use simple_timer.RbTree.Successor.{under}
use simple_timer.RbTree.Swap.{Seated}

-- The parent of what the successor leaves, after the exchange.
pub above_other :
    (w z : Way) (c : Color) (x n : Entry) (l : Shape)
    → copies_up x.at w ≡ 0
    → (if above (under w (in_right c x l z)) == x.at
        then n.at
        else above (under w (in_right c x l z)))
      ≡ above (under w (in_right c n l z))
above_other top z c x n l none = ground arith
above_other (in_left d e r up) z c x n l none = ground (arith, none)
above_other (in_right d e s up) z c x n l none = ground (arith, none)

module _ (m m2 : Store) (fuel : ℕ) (z z' : Way) (c cl d : Color) (x n el : Entry)
    (ll lr r r' rest : Shape) where
  abbrev l : Shape
  l = node cl el ll lr

  pub inner-run :
      (u : Cut m z' n.at rest)
      → u.memory ≡ m2
      → m x.at ≡ some (cell c x el.at (ptr r) (above z))
      → leftmost fuel (ptr r) m ≡ ok n.at m
      → m n.at ≡ some (cell d n null (ptr rest) (above z'))
      → root_of z' (ptr rest) ≡ root_of z x.at
      → root_of z' n.at ≡ root_of z x.at
      → m2 x.at ≡ some (cell c x el.at (ptr r') (above z))
      → m2 n.at ≡ some (cell d n null (ptr rest) (above z'))
      → (s : Seated m2 z c x n l r')
      → unlink_inner fuel x.at (root_of z x.at) m
        ≡ ok
            (record {
              color = d;
              child = ptr rest;
              parent = if above z' == x.at then n.at else above z';
              root = root_of z n.at;
            })
            s.memory
  unfolding unlink_inner load store
  inner-run u same here first live root root' here2 live2 s = rw (
    here,
    first,
    live,
    u.adopts,
    sym root',
    u.replaces,
    same,
    root,
    here2,
    live2,
    s.replaces,
    s.left,
    s.right,
  )

-- ===== src/RbTree/Successor.antt =====
-- The successor that `rb_erase` of src/rbtree.c puts in the place of a node with two children.
use simple_timer.Prelude.{ℕ, zero, suc, ◌+◌, ◌<◌, ◌≡◌, refl, sym, ap, ◌∙◌, ◌∷◌, ◌++◌, arith, ne→eqb}
use simple_timer.Machine.{ok}
use simple_timer.Api.{Ptr, null}
use simple_timer.RbTree.{Color, Store, load}
use simple_timer.RbTree.Erase.{leftmost}
use simple_timer.RbTree.Shape.{
  Entry, Shape, leaf, node, Way, top, in_left, in_right, ptr, fill, root_of, Tied, copies_up,
  entries,
}
use simple_timer.RbTree.Paint.{root_color}
use simple_timer.RbTree.Balance.{raise, IsAround, IsCalmUp, IsUnderBlack}
use simple_timer.RbTree.Rebalance.{depth}
use simple_timer.RbTree.Descent.{size}

-- One way down after another.
abbrev pub under : Way → Way → Way
under top z = z
under (in_left c e r up) z = in_left c e r (under up z)
under (in_right c e l up) z = in_right c e l (under up z)

pub under-fill : (w z : Way) (t : Shape) → fill (under w z) t ≡ fill z (fill w t)
under-fill top z t = refl
under-fill (in_left c e r up) z t = under-fill up z (node c e t r)
under-fill (in_right c e l up) z t = under-fill up z (node c e l t)

pub root_under : (w z : Way) (p : Ptr) → root_of (under w z) p ≡ root_of z (root_of w p)
root_under top z p = refl
root_under (in_left c e r up) z p = root_under up z e.at
root_under (in_right c e l up) z p = root_under up z e.at

pub copies_up-under :
    (a : Ptr) (w z : Way) → copies_up a (under w z) ≡ copies_up a w + copies_up a z
copies_up-under a top z = omega arith
copies_up-under a (in_left c e r up) z = omega (arith, copies_up-under a up z)
copies_up-under a (in_right c e l up) z = omega (arith, copies_up-under a up z)

pub depth-under : (w z : Way) → depth (under w z) ≡ depth w + depth z
depth-under top z = omega arith
depth-under (in_left c e r up) z = omega (arith, depth-under up z)
depth-under (in_right c e l up) z = omega (arith, depth-under up z)

-- The first entry of a subtree, with the way to it, and its right child.
pub record Least (m : Store) (fuel : ℕ) (t : Shape) : Type 0 where
  pub way : Way
  pub color : Color
  pub entry : Entry
  pub rest : Shape
  pub run : leftmost fuel (ptr t) m ≡ ok entry.at m
  pub old : fill way (node color entry leaf rest) ≡ t
  pub order : entries t ≡ entry ∷ entries (fill way rest)

leftmost-here :
    (m : Store) (k : ℕ) (q : Ptr) (c : Color) (e : Entry) (r : Shape)
    → Tied m q (node c e leaf r)
    → leftmost (suc k) e.at m ≡ ok e.at m
unfolding leftmost load
leftmost-here m k q c e r (given, live, _, _) = rw live

leftmost-step :
    (m : Store) (k : ℕ) (q p : Ptr) (c cl : Color) (e el : Entry) (a b r : Shape)
    → Tied m q (node c e (node cl el a b) r)
    → leftmost k el.at m ≡ ok p m
    → leftmost (suc k) e.at m ≡ ok p m
unfolding leftmost load
leftmost-step m k q p c cl e el a b r (given, live, l', _) run =
    rw (live, ne→eqb el.at null l'.0, run)

pub least :
    (m : Store) (fuel : ℕ) (q : Ptr) (c : Color) (e : Entry) (l r : Shape)
    → Tied m q (node c e l r)
    → size l < fuel
    → Least m fuel (node c e l r)
least m zero q c e l r h enough = ground (arith, enough)
least m (suc k) q c e leaf r h enough = record {
  way = top;
  color = c;
  entry = e;
  rest = r;
  run = leftmost-here m k q c e r h;
  old = refl;
  order = refl;
}
least m (suc k) q c e (node cl el a b) r h enough =
    let d = least m k e.at cl el a b h.2 (omega (arith, enough)) in
    record {
      way = under d.way (in_left c e r top);
      color = d.color;
      entry = d.entry;
      rest = d.rest;
      run = leftmost-step m k q d.entry.at c cl e el a b r h d.run;
      old =
          under-fill d.way (in_left c e r top) (node d.color d.entry leaf d.rest)
          ∙ ap (λ t. node c e t r) d.old;
      order =
          ap (λ xs. xs ++ (e ∷ entries r)) d.order
          ∙ ap (λ t. d.entry ∷ entries t) (sym (under-fill d.way (in_left c e r top) d.rest));
    }

-- The surroundings stay as they are when another entry stands in a node of the same colour.
IsUnderBlack-other :
    (w z : Way) (c : Color) (x n : Entry) (l : Shape)
    → IsUnderBlack (under w (in_right c x l z))
    → IsUnderBlack (under w (in_right c n l z))
IsUnderBlack-other top z c x n l h = h
IsUnderBlack-other (in_left d e r up) z c x n l h = h
IsUnderBlack-other (in_right d e s up) z c x n l h = h

IsCalmUp-other :
    (d y : Color) (w z : Way) (c : Color) (x n : Entry) (l : Shape)
    → IsCalmUp d y (under w (in_right c x l z))
    → IsCalmUp d y (under w (in_right c n l z))
IsCalmUp-other Color.red y w z c x n l h = (h.0, IsUnderBlack-other w z c x n l h.1)
IsCalmUp-other Color.black y w z c x n l h = tt

pub IsAround-other :
    (w z : Way) (c : Color) (x n : Entry) (l : Shape) (h : ℕ)
    → IsAround h (under w (in_right c x l z))
    → IsAround h (under w (in_right c n l z))
IsAround-other top z c x n l h a = a
IsAround-other (in_left d e r up) z c x n l h (same, calm, even, a) = (
  same,
  IsCalmUp-other d (root_color r) up z c x n l calm,
  even,
  IsAround-other up z c x n l (raise d h) a,
)
IsAround-other (in_right d e s up) z c x n l h (same, calm, even, a) = (
  same,
  IsCalmUp-other d (root_color s) up z c x n l calm,
  even,
  IsAround-other up z c x n l (raise d h) a,
)

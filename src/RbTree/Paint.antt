-- ===== src/RbTree/Paint.antt =====
-- The reads and the changes of colour in the rebalancing of src/rbtree.c, on a tree in memory.
use simple_timer.Prelude.{◌+◌, ◌≡◌, ◌≢◌, refl, sym, some, ◌==◌, false, arith, ne→eqb}
use simple_timer.Machine.{ok}
use simple_timer.Api.{null}
use simple_timer.RbTree.{Color, Store, is_red, load, set_color, red_at}
use simple_timer.RbTree.Shape.{
  Entry, Shape, leaf, node, Way, top, in_left, in_right, ptr, fill, above, cell, copies, copies_up,
  Stands, entries-fill, copies-fill, Tied-split, Tied-join,
}
use simple_timer.RbTree.Frame.{
  put, set_color-ok, Tied-put, TiedUp-put, hit-same, put-other, put-same, ptr-apart,
}
use simple_timer.RbTree.Leads.{Leads}

abbrev pub root_color : Shape → Color
root_color leaf = Color.black
root_color (node c e l r) = c

-- What the memory holds at a node of a tree.
pub record Here (m : Store) (z : Way) (c : Color) (e : Entry) (l r : Shape) : Type 0 where
  pub given : e.at ≢ null
  pub live : m e.at ≡ some (cell c e (ptr l) (ptr r) (above z))
  pub once : copies_up e.at z + copies e.at l + copies e.at r ≡ 0

pub here :
    (m : Store) (z : Way) (c : Color) (e : Entry) (l r : Shape)
    → Stands m (fill z (node c e l r))
    → Here m z c e l r
here m z c e l r h =
    let at = (Tied-split m z (node c e l r) h.tied).1 in
    let high = h.apart e.at in
    let total = copies-fill e.at z (node c e l r) in
    let self = hit-same e.at in record { given = at.0; live = at.1; once = omega arith }

-- The colour at the top of a subtree, or black at NULL.
pub red_at-ok :
    (m : Store) (z : Way) (t : Shape)
    → Stands m (fill z t)
    → red_at (ptr t) m ≡ ok (is_red (root_color t)) m
unfolding red_at load
red_at-ok m z leaf h = refl
red_at-ok m z (node c e l r) h =
    let at = here m z c e l r h in rw (ne→eqb e.at null at.given, at.live)

pub set_color-Leads :
    (m : Store) (z : Way) (c d : Color) (e : Entry) (l r : Shape)
    → Stands m (fill z (node c e l r))
    → (m' : Store) × (set_color e.at d m ≡ ok tt m')
      × Leads m (fill z (node c e l r)) m' (fill z (node d e l r))
set_color-Leads m z c d e l r h =
    let at = here m z c e l r h in
    let once = at.once in
    let x = cell d e (ptr l) (ptr r) (above z) in
    let (out, (given, live, l', r')) = Tied-split m z (node c e l r) h.tied in
    (
      put m e.at x,
      set_color-ok m e.at _ live d,
      record {
        stands = record {
          tied =
              Tied-join (put m e.at x) z (node d e l r)
                (TiedUp-put m e.at x z e.at (omega arith) out)
                (
                  given,
                  put-same m e.at x,
                  Tied-put m e.at x e.at l (omega arith) l',
                  Tied-put m e.at x e.at r (omega arith) r',
                );
          apart = λ p.
              omega
                (arith, h.apart p, copies-fill p z (node c e l r), copies-fill p z (node d e l r));
        };
        order = entries-fill z (node d e l r) (node c e l r) refl;
        kept = λ p n. put-other m e.at x p (omega (arith, n, copies-fill p z (node c e l r)));
      },
    )

abbrev pub blacken : Shape → Shape
blacken leaf = leaf
blacken (node c e l r) = node Color.black e l r

pub ptr-blacken : (t : Shape) → ptr (blacken t) ≡ ptr t
ptr-blacken leaf = refl
ptr-blacken (node c e l r) = refl

pub blacken-Leads :
    (m : Store) (z : Way) (t : Shape)
    → ptr t ≢ null
    → Stands m (fill z t)
    → (m' : Store) × (set_color (ptr t) Color.black m ≡ ok tt m')
      × Leads m (fill z t) m' (fill z (blacken t))
blacken-Leads m z leaf given h = ground (arith, given)
blacken-Leads m z (node c e l r) given h = set_color-Leads m z c Color.black e l r h

pub red_given :
    (m : Store) (z : Way) (t : Shape)
    → Stands m (fill z t)
    → root_color t ≡ Color.red
    → ptr t ≢ null
red_given m z leaf h red = ground (arith, red)
red_given m z (node c e l r) h red = (here m z c e l r h).given

-- The right child is not the left one.
pub siblings :
    (m : Store) (z : Way) (c d : Color) (g p : Entry) (u l r : Shape)
    → Stands m (fill z (node c g u (node d p l r)))
    → (p.at == ptr u) ≡ false
siblings m z c d g p u l r h =
    let at = here m (in_right c g u z) d p l r h in
    let once = at.once in
    let apart : ptr u ≢ p.at = ptr-apart p.at u at.given (omega arith) in
    ne→eqb p.at (ptr u) λ e. apart (sym e)

-- The colour of the node above, or black.
abbrev pub color_above : Way → Color
color_above top = Color.black
color_above (in_left c e r up) = c
color_above (in_right c e l up) = c

pub red_above-ok :
    (m : Store) (z : Way) (t : Shape)
    → Stands m (fill z t)
    → red_at (above z) m ≡ ok (is_red (color_above z)) m
unfolding red_at
red_above-ok m top t h = refl
red_above-ok m (in_left c e r up) t h = red_at-ok m up (node c e t r) h
red_above-ok m (in_right c e l up) t h = red_at-ok m up (node c e l t) h

pub root_given :
    (m : Store) (z : Way) (t : Shape) → Stands m (fill z t) → ptr t ≢ null → ptr (fill z t) ≢ null
root_given m top t h given = given
root_given m (in_left c e r up) t h given =
    root_given m up (node c e t r) h (here m up c e t r h).given
root_given m (in_right c e l up) t h given =
    root_given m up (node c e l t) h (here m up c e l t h).given

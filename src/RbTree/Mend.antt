-- ===== src/RbTree/Mend.antt =====
-- The reads and writes of `rb_erase_rebalance` of src/rbtree.c on a tree in memory.
use simple_timer.Prelude.{◌≡◌, refl, not, ne→eqb}
use simple_timer.Machine.{ok}
use simple_timer.Api.{null}
use simple_timer.RbTree.{Color, Store, is_red, load}
use simple_timer.RbTree.Erase
use simple_timer.RbTree.Erase.{black_at}
use simple_timer.RbTree.Shape.{Shape, leaf, node, Way, ptr, fill, Stands}
use simple_timer.RbTree.Leads.{Leads}
use simple_timer.RbTree.Paint.{root_color, here, blacken, set_color-Leads}

pub Leads-refl : (m : Store) (t : Shape) → Stands m t → Leads m t m t
Leads-refl m t h = record { stands = h; order = refl; kept = λ a n. refl }

pub black_at-ok :
    (m : Store) (z : Way) (t : Shape)
    → Stands m (fill z t)
    → black_at (ptr t) m ≡ ok (not (is_red (root_color t))) m
unfolding black_at load
black_at-ok m z leaf h = refl
black_at-ok m z (node c e l r) h =
    let at = here m z c e l r h in rw (ne→eqb e.at null at.given, at.live)

pub blacken-ok :
    (m : Store) (z : Way) (t : Shape)
    → Stands m (fill z t)
    → (m' : Store) × (Erase.blacken (ptr t) m ≡ ok tt m')
      × Leads m (fill z t) m' (fill z (blacken t))
unfolding Erase.blacken
blacken-ok m z leaf h = (m, refl, Leads-refl m (fill z leaf) h)
blacken-ok m z (node c e l r) h =
    let (m', run, s) = set_color-Leads m z c Color.black e l r h in
    (m', rw (ne→eqb e.at null (here m z c e l r h).given, run), s)

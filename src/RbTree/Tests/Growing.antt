-- ===== src/RbTree/Tests/Growing.antt =====
-- Insertions and removals on small trees.
use simple_timer.Prelude.{◌+◌, ◌≡◌, refl, some, none, arith, ◌==◌, if◌then◌else◌}
use simple_timer.Machine.{ok}
use simple_timer.Api.{null}
use simple_timer.RbTree.{Store, red, black, search, insert, insert_rebalance}
use simple_timer.RbTree.Erase.{erase, erase_rebalance}
use simple_timer.RbTree.Shape.{
  Entry, Shape, leaf, node, Way, top, in_left, in_right, ptr, fill, cell,
}
use simple_timer.RbTree.Leads.{Leads}
use simple_timer.RbTree.Balance.{IsRedBlack}
use simple_timer.RbTree.Grow.{IsRbTree, Inserted, insert-Inserted, search-lookup}
use simple_timer.RbTree.Lookup.{search-insert}
use simple_timer.RbTree.Shrink.{Erased, erase-Erased}
use simple_timer.RbTree.Rebalance.{insert_rebalance-Leads}
use simple_timer.RbTree.Fill.{erase_rebalance-Leads}

abbrev one : Entry
one = record { at = 10; key = 1; datum = 7 }

abbrev two : Entry
two = record { at = 20; key = 2; datum = 7 }

abbrev three : Entry
three = record { at = 30; key = 3; datum = 7 }

abbrev four : Entry
four = record { at = 40; key = 4; datum = 7 }

-- The keys 1, 2 and 3, with 2 at the root.
abbrev trio : Shape
trio = node black two (node red one leaf leaf) (node red three leaf leaf)

abbrev trio_nodes : Store
trio_nodes p =
    if p == 20
    then some (cell black two 10 30 null)
    else if p == 10
    then some (cell red one null null 20)
    else if p == 30
    then some (cell red three null null 20)
    else none

trio-IsRbTree : IsRbTree trio_nodes trio
trio-IsRbTree = record {
  stands = record {
    tied = (omega arith, refl, (omega arith, refl, tt, tt), (omega arith, refl, tt, tt));
    apart = λ a. ground arith;
  };
  balanced = (refl, (refl, tt, (refl, (refl, refl), tt, tt), (refl, (refl, refl), tt, tt)));
  ascending = ((omega arith, (omega arith, tt)), ((omega arith, tt), (tt, tt)));
}

insert-Inserted_example :
    (t' : Shape) × (m' : Store) × (insert 40 (3 + 2) 4 7 20 trio_nodes ≡ ok (some (ptr t')) m')
    × Inserted trio_nodes trio four m' t'
insert-Inserted_example =
    insert-Inserted trio_nodes 3 four trio trio-IsRbTree (omega arith) refl (omega arith)

four_absent : search 9 4 20 trio_nodes ≡ ok null trio_nodes
four_absent = search-lookup trio_nodes 9 4 trio trio-IsRbTree (omega arith)

search-insert_example :
    (t' : Shape) × (m' : Store) × (insert 40 (3 + 2) 4 7 20 trio_nodes ≡ ok (some (ptr t')) m')
    × (search 9 4 (ptr t') m' ≡ ok 40 m')
search-insert_example =
    search-insert trio_nodes 3 9 4 four trio null trio-IsRbTree (omega arith) refl (omega arith)
      (omega arith) four_absent four_absent

erase-Erased_example :
    (t' : Shape) × (m' : Store) × (erase (3 + 2) 2 20 trio_nodes ≡ ok (ptr t') m')
    × Erased trio_nodes trio 2 m' t'
erase-Erased_example = erase-Erased trio_nodes 3 2 trio trio-IsRbTree (omega arith)

-- The keys 1, 2 and 3 one below the other, 3 the newest.
abbrev stairs : Way
stairs = in_right red two leaf (in_right black one leaf top)

abbrev stairs_nodes : Store
stairs_nodes p =
    if p == 10
    then some (cell black one null 20 null)
    else if p == 20
    then some (cell red two null 30 10)
    else if p == 30
    then some (cell red three null null 20)
    else none

insert_rebalance-Leads_example :
    (t' : Shape) × (m' : Store) × (insert_rebalance (2 + 2) 30 10 stairs_nodes ≡ ok (ptr t') m')
    × Leads stairs_nodes (fill stairs (node red three leaf leaf)) m' t'
    × IsRedBlack t'
insert_rebalance-Leads_example =
    insert_rebalance-Leads stairs_nodes stairs 2 three leaf leaf
      (record {
        tied = (omega arith, refl, tt, (omega arith, refl, tt, (omega arith, refl, tt, tt)));
        apart = λ a. ground arith;
      })
      (refl, (refl, refl), tt, tt) (refl, (refl, refl), tt, (refl, tt, tt, tt)) (omega arith)

-- The keys 1 and 2, both black: to the left of 1 a black node has gone.
abbrev gap : Way
gap = in_left black one (node black two leaf leaf) top

abbrev gap_nodes : Store
gap_nodes p =
    if p == 10
    then some (cell black one null 20 null)
    else if p == 20
    then some (cell black two null null 10)
    else none

erase_rebalance-Leads_example :
    (t' : Shape) × (m' : Store) × (erase_rebalance (1 + 2) null 10 10 gap_nodes ≡ ok (ptr t') m')
    × Leads gap_nodes (fill gap leaf) m' t'
    × IsRedBlack t'
erase_rebalance-Leads_example =
    erase_rebalance-Leads gap_nodes gap 1 leaf
      (record {
        tied = (omega arith, refl, tt, (omega arith, refl, tt, tt));
        apart = λ a. ground arith;
      })
      tt (refl, tt, (refl, tt, tt, tt), tt) (omega arith)

-- ===== src/RbTree/Unchanged.antt =====
-- `rb_insert` of a key that is there, and `rb_erase` of one that is not.
use simple_timer.Prelude.{ℕ, ◌<◌, ◌≡◌, ◌≢◌, some}
use simple_timer.Machine.{ok}
use simple_timer.Api.{Ptr, null}
use simple_timer.RbTree.{Store, Found, descend, insert}
use simple_timer.RbTree.Erase.{erase}
use simple_timer.RbTree.Search.{Tree, Holds, IsOrdered, size, holder, Ending, descend-Descends}

insert-found :
    (m : Store) (fresh fuel key : ℕ) (datum root a : Ptr) (f : Found)
    → a ≢ null
    → descend fuel key root null m ≡ ok f m
    → Ending a f
    → insert fresh fuel key datum root m ≡ ok (some root) m
unfolding insert
insert-found m fresh fuel key datum root a (Found.at p) here run d = rw run
insert-found m fresh fuel key datum root a (Found.below p) here run d = absurd (here d)

erase-missing :
    (m : Store) (fuel key : ℕ) (root a : Ptr) (f : Found)
    → a ≡ null
    → descend fuel key root null m ≡ ok f m
    → Ending a f
    → erase fuel key root m ≡ ok root m
unfolding erase
erase-missing m fuel key root a (Found.at p) gone run d = absurd (d.0 gone)
erase-missing m fuel key root a (Found.below p) gone run d = rw run

module _ {m : Store} (t : Tree) {root : Ptr} (fuel key : ℕ) (held : Holds m root t)
    (ordered : IsOrdered t) (enough : size t < fuel) where
  -- In a search tree that holds the key, on fuel for more steps than there are nodes, `rb_insert`
  -- returns the root, allocates nothing and leaves the tree as it is.
  pub insert-present :
      (fresh datum : Ptr)
      → holder key t ≢ null
      → insert fresh fuel key datum root m ≡ ok (some root) m
  insert-present fresh datum here =
      let (f, run, d) = descend-Descends m fuel t key root null held ordered enough in
      insert-found m fresh fuel key datum root (holder key t) f here run d

  -- In a search tree that does not hold the key, on fuel for more steps than there are nodes,
  -- `rb_erase` returns the root and leaves the tree as it is.
  pub erase-absent : holder key t ≡ null → erase fuel key root m ≡ ok root m
  erase-absent gone =
      let (f, run, d) = descend-Descends m fuel t key root null held ordered enough in
      erase-missing m fuel key root (holder key t) f gone run d

-- ===== src/RbTree/First.antt =====
-- `rb_insert` into an empty tree makes a tree of one black node.
use simple_timer.Prelude.{ℕ, suc, ◌≡◌, ◌≢◌, some, arith, ◌==◌, if◌then◌else◌, ne→eqb}
use simple_timer.Machine.{ok}
use simple_timer.Api.{Ptr, null}
use simple_timer.RbTree.{
  Color, RbNode, Store, load, store, set_color, red_at, insert_rebalance, insert,
}

abbrev pub single : ℕ → Ptr → RbNode
single key datum = record {
  left = null;
  right = null;
  parent = null;
  key = key;
  datum = datum;
  color = Color.black;
}

rebalance-root :
    (k key : ℕ) (node datum : Ptr) (m : Store)
    → m node ≡ some (record (single key datum) { color = Color.red })
    → insert_rebalance (suc k) node node m
      ≡ ok node λ a. if a == node then some (single key datum) else m a
unfolding insert_rebalance load store set_color red_at
rebalance-root k key node datum m here = rw (here, here)

pub insert-empty :
    (fresh k key : ℕ) (datum : Ptr) (m : Store)
    → fresh ≢ null
    → (m' : Store) × (insert fresh (suc k) key datum null m ≡ ok (some fresh) m')
      × ((a : Ptr) → m' a ≡ (if a == fresh then some (single key datum) else m a))
unfolding insert store
insert-empty fresh k key datum m new =
    let m1 : Store =
      λ a. if a == fresh then some (record (single key datum) { color = Color.red }) else m a in
    (
      (λ a. if a == fresh then some (single key datum) else m1 a),
      rw (ne→eqb fresh null new, rebalance-root k key fresh datum m1 (ground arith)),
      λ a. ground arith,
    )

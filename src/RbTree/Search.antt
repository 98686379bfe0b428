-- ===== src/RbTree/Search.antt =====
-- `rb_search` of src/rbtree.c against an exhaustive walk over the tree.
use simple_timer.Prelude.{
  sym, ◌∙◌, ℕ, zero, suc, ◌<◌, ◌≤◌, ◌≡◌, ◌≢◌, refl, some, arith, ◌+◌, ◌⊎◌, inl, inr, ◌==◌,
  if◌then◌else◌, ltb,
}
use simple_timer.Prelude.{Bool-cases, ltb→lt, lt→ltb, ne→eqb, le→ltb}
use simple_timer.Machine.{ok}
use simple_timer.Api.{Ptr, null}
use simple_timer.RbTree.{RbNode, Store, Found, load, descend, search}

-- The nodes of a tree with their addresses.
pub data Tree : Type 0 where
  leaf : Tree
  node : Ptr → RbNode → Tree → Tree → Tree

-- The pointer leads to this tree in the memory.
abbrev pub Holds : Store → Ptr → Tree → Type 0
Holds m p leaf = p ≡ null
Holds m p (node a x l r) =
    (p ≡ a) × (a ≢ null) × (m a ≡ some x) × Holds m x.left l × Holds m x.right r

abbrev pub AllBelow : ℕ → Tree → Type 0
AllBelow k leaf = Unit
AllBelow k (node a x l r) = (x.key < k) × AllBelow k l × AllBelow k r

abbrev pub AllAbove : ℕ → Tree → Type 0
AllAbove k leaf = Unit
AllAbove k (node a x l r) = (k < x.key) × AllAbove k l × AllAbove k r

-- The order of a search tree.
abbrev pub IsOrdered : Tree → Type 0
IsOrdered leaf = Unit
IsOrdered (node a x l r) = AllBelow x.key l × AllAbove x.key r × IsOrdered l × IsOrdered r

abbrev pub size : Tree → ℕ
size leaf = 0
size (node a x l r) = suc (size l + size r)

-- The address of a node with the key, found by looking at every node; NULL if there is none.
abbrev pub holder : ℕ → Tree → Ptr
holder key leaf = null
holder key (node a x l r) =
    if x.key == key then a else if holder key l == null then holder key r else holder key l

holder-below : (k key : ℕ) (t : Tree) → AllBelow k t → k ≤ key → holder key t ≡ null
holder-below k key leaf b h = refl
holder-below k key (node a x l r) b h =
    ground (arith, b.0, holder-below k key l b.1 h, holder-below k key r b.2 h)

holder-above : (k key : ℕ) (t : Tree) → AllAbove k t → key ≤ k → holder key t ≡ null
holder-above k key leaf b h = refl
holder-above k key (node a x l r) b h =
    ground (arith, b.0, holder-above k key l b.1 h, holder-above k key r b.2 h)

-- How the descent ends, by the walk over the whole tree.
abbrev pub Ending : Ptr → Found → Type 0
Ending a (Found.at p) = (a ≢ null) × (p ≡ a)
Ending a (Found.below p) = a ≡ null

abbrev pub Descends : Store → ℕ → ℕ → Tree → Ptr → Ptr → Type 0
Descends m fuel key t p parent =
    (f : Found) × (descend fuel key p parent m ≡ ok f m) × Ending (holder key t) f

-- One step of the descent from a live node.
module _ (m : Store) {p : Ptr} {x : RbNode} (given : p ≢ null) (live : m p ≡ some x) (k key : ℕ)
    (parent : Ptr) where
  pub step-left : key < x.key → descend (suc k) key p parent m ≡ descend k key x.left p m
  unfolding descend load
  step-left lt = rw (ne→eqb p null given, live, lt→ltb key x.key lt)

  pub step-right : x.key < key → descend (suc k) key p parent m ≡ descend k key x.right p m
  unfolding descend load
  step-right gt =
      rw (ne→eqb p null given, live, le→ltb key x.key (omega arith), lt→ltb x.key key gt)

  pub step-at : x.key ≡ key → descend (suc k) key p parent m ≡ ok (Found.at p) m
  unfolding descend load
  step-at e =
      rw (ne→eqb p null given, live, le→ltb x.key key (omega arith), le→ltb key x.key (omega arith))

Ending-left :
    (key : ℕ) (a : Ptr) (x : RbNode) (l r : Tree) (f : Found)
    → AllAbove x.key r
    → key < x.key
    → Ending (holder key l) f
    → Ending (holder key (node a x l r)) f
Ending-left key a x l r (Found.at p) above lt d = ground (arith, d)
Ending-left key a x l r (Found.below p) above lt d =
    ground (arith, holder-above x.key key r above (omega arith), d)

Ending-right :
    (key : ℕ) (a : Ptr) (x : RbNode) (l r : Tree) (f : Found)
    → AllBelow x.key l
    → x.key < key
    → Ending (holder key r) f
    → Ending (holder key (node a x l r)) f
Ending-right key a x l r (Found.at p) below gt d =
    ground (arith, holder-below x.key key l below (omega arith), d)
Ending-right key a x l r (Found.below p) below gt d =
    ground (arith, holder-below x.key key l below (omega arith), d)

pub trichotomy : (a b : ℕ) → (a < b) ⊎ ((a ≡ b) ⊎ (b < a))
trichotomy a b = elim (Bool-cases (ltb a b)) [
  | inl lt ↦ inl (ltb→lt a b lt)
  | inr ge ↦ inr (elim (Bool-cases (ltb b a)) [
    | inl gt ↦ inr (ltb→lt b a gt)
    | inr le ↦ inl (ground (arith, ge, le))
  ])
]

pub descend-leaf :
    (m : Store) (k key : ℕ) (p parent : Ptr)
    → p ≡ null
    → descend (suc k) key p parent m ≡ ok (Found.below parent) m
unfolding descend
descend-leaf m k key p parent h = rw h

pub descend-Descends :
    (m : Store) (fuel : ℕ) (t : Tree) (key : ℕ) (p parent : Ptr)
    → Holds m p t
    → IsOrdered t
    → size t < fuel
    → Descends m fuel key t p parent
descend-Descends m zero t key p parent h o enough = ground arith
descend-Descends m (suc k) leaf key p parent h o enough =
    (Found.below parent, descend-leaf m k key p parent h, refl)
descend-Descends m (suc k) (node a x l r) key p parent h o enough =
    let given : p ≢ null = ground (arith, h.0, h.1) in
    let live : m p ≡ some x = cc in
    elim (trichotomy key x.key) [
      | inl lt ↦
          let (f, run, d) = descend-Descends m k l key x.left p h.3 o.2 (omega arith) in
          (f, step-left m given live k key parent lt ∙ run, Ending-left key a x l r f o.1 lt d)
      | inr (inl e) ↦
          (Found.at p, step-at m given live k key parent (sym e), ground (arith, h.0, h.1, e))
      | inr (inr gt) ↦
          let (f, run, d) = descend-Descends m k r key x.right p h.4 o.3 (omega arith) in
          (f, step-right m given live k key parent gt ∙ run, Ending-right key a x l r f o.0 gt d)
    ]

search-run :
    (m : Store) (fuel key : ℕ) (root a : Ptr) (f : Found)
    → descend fuel key root null m ≡ ok f m
    → Ending a f
    → search fuel key root m ≡ ok a m
unfolding search
search-run m fuel key root a (Found.at p) run d = ground (arith, run, d)
search-run m fuel key root a (Found.below p) run d = ground (arith, run, d)

-- In a search tree `rb_search`, on fuel for more steps than there are nodes, returns the address of
-- the node with the key, as a look at every node finds it, and NULL if there is none. The tree
-- stays as it is.
pub search-holder :
    (m : Store) (fuel key : ℕ) (t : Tree) (root : Ptr)
    → Holds m root t
    → IsOrdered t
    → size t < fuel
    → search fuel key root m ≡ ok (holder key t) m
search-holder m fuel key t root h o enough =
    let (f, run, d) = descend-Descends m fuel t key root null h o enough in
    search-run m fuel key root (holder key t) f run d

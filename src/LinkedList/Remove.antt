-- ===== src/LinkedList/Remove.antt =====
-- `list_del` takes an entry out of a list and poisons its links.
use simple_timer.Prelude.{
  ◌≡◌, ◌≢◌, refl, ◌∙◌, sym, true, false, List, [], ◌∷◌, ◌++◌, arith, ◌==◌, if◌then◌else◌,
}
use simple_timer.Machine.{ok, ◌>>=◌, ◌>>◌}
use simple_timer.Api.{Ptr}
use simple_timer.LinkedList.{
  Links, Memory, load, set_next, set_prev, join, list_add, list_del, poison_1, poison_2,
}
use simple_timer.LinkedList.Ring.{
  has, IsDistinct, links, Chain, is_live, IsRing, last_of, first_of, has-last_of, has-first_of,
  has-append, Chain-first, Chain-frame,
}
use simple_timer.LinkedList.Insert.{put, set_next-ok, set_prev-ok, apart, IsNew, list_add-IsRing}

-- The links after `e` has been taken out from between `a` and `b`.
pub record Removed (m : Memory) (e a b : Ptr) (m' : Memory) : Type 0 where
  pub next :
      (x : Ptr)
      → (links m' x).next ≡ (if x == e then poison_1 else if x == a then b else (links m x).next)
  pub prev :
      (x : Ptr)
      → (links m' x).prev ≡ (if x == e then poison_2 else if x == b then a else (links m x).prev)
  pub live : (x : Ptr) → is_live (m' x) ≡ is_live (m x)

list_del-run :
    (m : Memory) (e a b : Ptr)
    → is_live (m e) ≡ true
    → (links m e).prev ≡ a
    → (links m e).next ≡ b
    → list_del e m ≡ (join a b >>= λ _. set_next e poison_1 >>= λ _. set_prev e poison_2) m
unfolding list_del load
list_del-run m e a b live before behind = rw (sym before, sym behind) (ground arith)

list_del-Removed :
    (m : Memory) (e a b : Ptr)
    → e ≢ a
    → e ≢ b
    → is_live (m e) ≡ true
    → is_live (m a) ≡ true
    → is_live (m b) ≡ true
    → (links m e).prev ≡ a
    → (links m e).next ≡ b
    → (m' : Memory) × (list_del e m ≡ ok tt m') × Removed m e a b m'
unfolding join
list_del-Removed m e a b ea eb le la lb before behind =
    let m1 = put m b (record (links m b) { prev = a }) in
    let m2 = put m1 a (record (links m1 a) { next = b }) in
    let m3 = put m2 e (record (links m2 e) { next = poison_1 }) in
    let m4 = put m3 e (record (links m3 e) { prev = poison_2 }) in
    (
      m4,
      list_del-run m e a b le before behind
          ∙ rw (
            set_prev-ok m b a lb,
            set_next-ok m1 a b (ground arith),
            set_next-ok m2 e poison_1 (ground arith),
            set_prev-ok m3 e poison_2 (ground arith),
          ),
      record { next = λ x. ground arith; prev = λ x. ground arith; live = λ x. ground arith },
    )

-- The links of an entry lead to its neighbours.
Chain-neighbours :
    (l : Ptr → Links) (p q e : Ptr) (xs ys : List Ptr)
    → Chain l p (xs ++ e ∷ ys) q
    → ((l e).prev ≡ last_of p xs) × ((l e).next ≡ first_of ys q)
Chain-neighbours l p q e [] ys c = (c.1, Chain-first l e q ys c.2)
Chain-neighbours l p q e (x ∷ xs) ys c = Chain-neighbours l x q e xs ys c.2

pub IsDistinct-middle :
    (zs ys : List Ptr) (e : Ptr)
    → IsDistinct (zs ++ e ∷ ys)
    → (has e zs ≡ false) × (has e ys ≡ false) × IsDistinct (zs ++ ys)
IsDistinct-middle [] ys e d = (refl, d.0, d.1)
IsDistinct-middle (z ∷ zs) ys e d =
    let (left, right, rest) = IsDistinct-middle zs ys e d.1 in
    ground (arith, d.0, left, right, rest, has-append z zs (e ∷ ys), has-append z zs ys)

module _ {m m' : Memory} {e : Ptr} (h : Ptr) where
  Chain-behind :
      (p : Ptr) (ys : List Ptr)
      → Removed m e p (first_of ys h) m'
      → IsDistinct (p ∷ e ∷ ys)
      → has h (e ∷ ys) ≡ false
      → Chain (links m) p (e ∷ ys) h
      → Chain (links m') p ys h
  Chain-behind p [] r d out c = ground (arith, r.next p, r.prev h)
  Chain-behind p (y ∷ ys) r d out c = (
    ground (arith, r.next p),
    ground (arith, r.prev y),
    Chain-frame (links m) (links m') y h ys (λ a i. ground (arith, r.next a))
        (λ a i. ground (arith, r.prev a)) c.2.2,
  )

  Chain-without :
      (p : Ptr) (xs ys : List Ptr)
      → Removed m e (last_of p xs) (first_of ys h) m'
      → IsDistinct (p ∷ (xs ++ e ∷ ys))
      → has h (xs ++ e ∷ ys) ≡ false
      → Chain (links m) p (xs ++ e ∷ ys) h
      → Chain (links m') p (xs ++ ys) h
  Chain-without p [] ys r d out c = Chain-behind p ys r d out c
  Chain-without p (x ∷ xs) ys r d out c = (
    ground (arith, r.next p, has-last_of x xs, has-append p xs (e ∷ ys), d, c.0),
    ground (
      arith,
      r.prev x,
      has-first_of h ys,
      has-append x xs (e ∷ ys),
      d,
      c.1,
      has-append h xs (e ∷ ys),
    ),
    Chain-without x xs ys r d.1 (ground arith) c.2,
  )

-- The run of `list_del` on an entry of a list.
pub list_del-Unlinked :
    (m : Memory) (head e : Ptr) (xs ys : List Ptr)
    → IsRing m head (xs ++ e ∷ ys)
    → (m' : Memory) × (list_del e m ≡ ok tt m')
      × Removed m e (last_of head xs) (first_of ys head) m'
      × IsRing m' head (xs ++ ys)
list_del-Unlinked m head e xs ys r =
    let (before, behind) = Chain-neighbours (links m) head head e xs ys r.chain in
    let (left, right, rest) = IsDistinct-middle (head ∷ xs) ys e r.distinct in
    let out : has e (head ∷ ys) ≡ false = ground (arith, left, right) in
    let (m', run, c) =
      list_del-Removed m e (last_of head xs) (first_of ys head)
        (apart e (last_of head xs) (head ∷ xs) left (has-last_of head xs))
        (apart e (first_of ys head) (head ∷ ys) out (has-first_of head ys))
        (r.live e (ground (arith, has-append e xs (e ∷ ys))))
        (r.live (last_of head xs)
          (ground (arith, has-last_of head xs, has-append (last_of head xs) xs (e ∷ ys))))
        (r.live (first_of ys head)
          (ground (arith, has-first_of head ys, has-append (first_of ys head) xs (e ∷ ys))))
        before behind in
    (
      m',
      run,
      c,
      record {
        chain = Chain-without head head xs ys c r.distinct r.distinct.0 r.chain;
        distinct = rest;
        live =
            λ a i. ground (arith, c.live a, r.live a, has-append a xs (e ∷ ys), has-append a xs ys);
      },
    )

-- With a list at `head` that has the entry `e`, `list_del` ends without a fault, the list at `head`
-- has the other entries in their order, and both links of `e` are poisoned.
pub list_del-IsRing :
    (m : Memory) (head e : Ptr) (xs ys : List Ptr)
    → IsRing m head (xs ++ e ∷ ys)
    → (m' : Memory) × (list_del e m ≡ ok tt m')
      × IsRing m' head (xs ++ ys)
      × ((links m' e).next ≡ poison_1)
      × ((links m' e).prev ≡ poison_2)
list_del-IsRing m head e xs ys r =
    let (m', run, c, ring) = list_del-Unlinked m head e xs ys r in
    (m', run, ring, ground (arith, c.next e), ground (arith, c.prev e))

-- With a list at `head` and a live entry that is not in it, `list_add` and then `list_del` of the
-- entry end without a fault, and the list at `head` has its old entries in their order.
pub list_del-list_add :
    (m : Memory) (n head : Ptr) (xs : List Ptr)
    → IsRing m head xs
    → IsNew m n head xs
    → (m' : Memory) × ((list_add n head >> list_del n) m ≡ ok tt m') × IsRing m' head xs
list_del-list_add m n head xs r new =
    let (m1, added, r1) = list_add-IsRing m n head xs r new in
    let (m2, removed, r2, _, _) = list_del-IsRing m1 head n [] xs r1 in (m2, rw added removed, r2)

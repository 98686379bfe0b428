-- ===== src/LinkedList/Insert.antt =====
-- `list_add` and `list_add_tail` insert an entry at the front and at the end.
use simple_timer.Prelude.{
  ◌≡◌, ◌≢◌, ◌∙◌, sym, ap, true, false, some, List, [], ◌∷◌, ◌++◌, arith, ◌==◌, if◌then◌else◌,
}
use mathlib.Core.Bool.{false≢true}
use simple_timer.Machine.{ok}
use simple_timer.Api.{Ptr}
use simple_timer.LinkedList.{
  Links, Memory, load, store, set_next, set_prev, add_between, list_add, list_add_tail,
}
use simple_timer.LinkedList.Ring.{
  has, IsDistinct, links, Chain, is_live, IsRing, last_of, first_of, has-last_of, has-first_of,
  has-append, Chain-first, Chain-last, Chain-frame,
}

abbrev pub put : Memory → Ptr → Links → Memory
put m p l a = if a == p then some l else m a

pub set_next-ok :
    (m : Memory) (p q : Ptr)
    → is_live (m p) ≡ true
    → set_next p q m ≡ ok tt (put m p (record (links m p) { next = q }))
unfolding set_next load store
set_next-ok m p q h = ground arith

pub set_prev-ok :
    (m : Memory) (p q : Ptr)
    → is_live (m p) ≡ true
    → set_prev p q m ≡ ok tt (put m p (record (links m p) { prev = q }))
unfolding set_prev load store
set_prev-ok m p q h = ground arith

-- The links after `n` has come between `a` and `b`.
pub record Inserted (m : Memory) (n a b : Ptr) (m' : Memory) : Type 0 where
  pub next :
      (x : Ptr) → (links m' x).next ≡ (if x == a then n else if x == n then b else (links m x).next)
  pub prev :
      (x : Ptr) → (links m' x).prev ≡ (if x == n then a else if x == b then n else (links m x).prev)
  pub live : (x : Ptr) → is_live (m' x) ≡ is_live (m x)

pub add_between-Inserted :
    (m : Memory) (n a b : Ptr)
    → n ≢ a
    → n ≢ b
    → is_live (m n) ≡ true
    → is_live (m a) ≡ true
    → is_live (m b) ≡ true
    → (m' : Memory) × (add_between n a b m ≡ ok tt m') × Inserted m n a b m'
unfolding add_between
add_between-Inserted m n a b na nb ln la lb =
    let m1 = put m b (record (links m b) { prev = n }) in
    let m2 = put m1 n (record (links m1 n) { next = b }) in
    let m3 = put m2 n (record (links m2 n) { prev = a }) in
    let m4 = put m3 a (record (links m3 a) { next = n }) in
    (
      m4,
      rw (
        set_prev-ok m b n lb,
        set_next-ok m1 n b (ground arith),
        set_prev-ok m2 n a (ground arith),
        set_next-ok m3 a n (ground arith),
      ),
      record { next = λ x. ground arith; prev = λ x. ground arith; live = λ x. ground arith },
    )

module _ {m m' : Memory} {n h : Ptr} where
  Chain-front :
      (xs : List Ptr)
      → Inserted m n h (first_of xs h) m'
      → has n (h ∷ xs) ≡ false
      → IsDistinct (h ∷ xs)
      → Chain (links m) h xs h
      → Chain (links m') h (n ∷ xs) h
  Chain-front [] i fresh d c = ground (arith, i.next h, i.next n, i.prev n, i.prev h)
  Chain-front (x ∷ xs) i fresh d c = (
    ground (arith, i.next h),
    ground (arith, i.prev n),
    (
      ground (arith, i.next n),
      ground (arith, i.prev x),
      Chain-frame (links m) (links m') x h xs (λ a e. ground (arith, i.next a))
          (λ a e. ground (arith, i.prev a)) c.2,
    ),
  )

  Chain-back :
      (p : Ptr) (xs : List Ptr)
      → Inserted m n (last_of p xs) h m'
      → has n (h ∷ p ∷ xs) ≡ false
      → IsDistinct (p ∷ xs)
      → has h xs ≡ false
      → Chain (links m) p xs h
      → Chain (links m') p (xs ++ n ∷ []) h
  Chain-back p [] i fresh d apart c = ground (arith, i.next p, i.next n, i.prev n, i.prev h)
  Chain-back p (x ∷ xs) i fresh d apart c = (
    ground (arith, i.next p, has-last_of x xs),
    ground (arith, i.prev x),
    Chain-back x xs i (ground arith) (ground arith) (ground arith) c.2,
  )

IsDistinct-snoc :
    (n : Ptr) (zs : List Ptr) → has n zs ≡ false → IsDistinct zs → IsDistinct (zs ++ n ∷ [])
IsDistinct-snoc n [] out d = ground arith
IsDistinct-snoc n (z ∷ zs) out d =
    (ground (arith, has-append z zs (n ∷ [])), IsDistinct-snoc n zs (ground arith) d.1)

-- What a new entry needs: a place of its own.
pub record IsNew (m : Memory) (n head : Ptr) (xs : List Ptr) : Type 0 where
  pub fresh : has n (head ∷ xs) ≡ false
  pub live : is_live (m n) ≡ true

pub apart : (n a : Ptr) (zs : List Ptr) → has n zs ≡ false → has a zs ≡ true → n ≢ a
apart n a zs out here e = false≢true (sym out ∙ ap (λ (x : Ptr). has x zs) e ∙ here)

list_add-run :
    (m : Memory) (n head b : Ptr)
    → is_live (m head) ≡ true
    → (links m head).next ≡ b
    → list_add n head m ≡ add_between n head b m
unfolding list_add load
list_add-run m n head b live e = rw (sym e) (ground arith)

list_add_tail-run :
    (m : Memory) (n head a : Ptr)
    → is_live (m head) ≡ true
    → (links m head).prev ≡ a
    → list_add_tail n head m ≡ add_between n a head m
unfolding list_add_tail load
list_add_tail-run m n head a live e = rw (sym e) (ground arith)

module _ (m : Memory) (n head : Ptr) (xs : List Ptr) (r : IsRing m head xs)
    (new : IsNew m n head xs) where
  pub list_add-Inserted :
      (m' : Memory) × (list_add n head m ≡ ok tt m')
      × Inserted m n head (first_of xs head) m'
      × IsRing m' head (n ∷ xs)
  list_add-Inserted =
      let (m', run, i) =
        add_between-Inserted m n head (first_of xs head)
          (apart n head (head ∷ xs) new.fresh (ground arith))
          (apart n (first_of xs head) (head ∷ xs) new.fresh (has-first_of head xs)) new.live
          (r.live head (ground arith)) (r.live (first_of xs head) (has-first_of head xs)) in
      (
        m',
        list_add-run m n head _ (r.live head (ground arith))
              (Chain-first (links m) head head xs r.chain)
            ∙ run,
        i,
        record {
          chain = Chain-front xs i new.fresh r.distinct r.chain;
          distinct = ground (arith, r.distinct, new.fresh);
          live = λ a e. ground (arith, i.live a, r.live a, new.live);
        },
      )

  -- With a list at `head` and a live entry that is not in it, `list_add` ends without a fault, and
  -- the list at `head` has the new entry first and then the old ones in their order.
  pub list_add-IsRing : (m' : Memory) × (list_add n head m ≡ ok tt m') × IsRing m' head (n ∷ xs)
  list_add-IsRing = let (m', run, i, ring) = list_add-Inserted in (m', run, ring)

  pub list_add_tail-Inserted :
      (m' : Memory) × (list_add_tail n head m ≡ ok tt m')
      × Inserted m n (last_of head xs) head m'
      × IsRing m' head (xs ++ n ∷ [])
  list_add_tail-Inserted =
      let (m', run, i) =
        add_between-Inserted m n (last_of head xs) head
          (apart n (last_of head xs) (head ∷ xs) new.fresh (has-last_of head xs))
          (apart n head (head ∷ xs) new.fresh (ground arith)) new.live
          (r.live (last_of head xs) (has-last_of head xs)) (r.live head (ground arith)) in
      (
        m',
        list_add_tail-run m n head _ (r.live head (ground arith))
              (Chain-last (links m) head head xs r.chain)
            ∙ run,
        i,
        record {
          chain = Chain-back head xs i (ground (arith, new.fresh)) r.distinct r.distinct.0 r.chain;
          distinct = IsDistinct-snoc n (head ∷ xs) new.fresh r.distinct;
          live = λ a e. ground (arith, i.live a, r.live a, new.live, has-append a xs (n ∷ []));
        },
      )

  -- With a list at `head` and a live entry that is not in it, `list_add_tail` ends without a fault,
  -- and the list at `head` has the old entries in their order and then the new one.
  pub list_add_tail-IsRing :
      (m' : Memory) × (list_add_tail n head m ≡ ok tt m') × IsRing m' head (xs ++ n ∷ [])
  list_add_tail-IsRing = let (m', run, i, ring) = list_add_tail-Inserted in (m', run, ring)

-- ===== src/LinkedList/Frame.antt =====
-- An operation on one list leaves the others as they are.
use simple_timer.Prelude.{◌≡◌, ◌≢◌, ◌∙◌, true, false, List, ◌∷◌, ◌++◌, arith}
use simple_timer.Api.{Ptr}
use simple_timer.LinkedList.{Memory}
use simple_timer.LinkedList.Ring.{
  has, links, is_live, IsRing, last_of, first_of, has-last_of, has-first_of, has-append,
  Chain-frame,
}
use simple_timer.LinkedList.Insert.{Inserted, apart}
use simple_timer.LinkedList.Remove.{Removed}

-- The links at `a` are those of before.
pub record Same (m m' : Memory) (a : Ptr) : Type 0 where
  pub next : (links m' a).next ≡ (links m a).next
  pub prev : (links m' a).prev ≡ (links m a).prev
  pub live : is_live (m' a) ≡ is_live (m a)

pub Same-trans : {m m1 m2 : Memory} {a : Ptr} → Same m m1 a → Same m1 m2 a → Same m m2 a
Same-trans p q = record { next = q.next ∙ p.next; prev = q.prev ∙ p.prev; live = q.live ∙ p.live }

pub IsRing-frame :
    {m m' : Memory} (h : Ptr) (xs : List Ptr)
    → ((a : Ptr) → has a (h ∷ xs) ≡ true → Same m m' a)
    → IsRing m h xs
    → IsRing m' h xs
IsRing-frame {m} {m'} h xs same r = record {
  chain =
      Chain-frame (links m) (links m') h h xs (λ a e. (same a e).next) (λ a e. (same a e).prev)
        r.chain;
  distinct = r.distinct;
  live = λ a e. (same a e).live ∙ r.live a e;
}

module _ {m m' : Memory} (h : Ptr) (xs : List Ptr) where
  -- What is outside a list is not the same as what is inside it.
  pub Same-add :
      (n : Ptr)
      → Inserted m n h (first_of xs h) m'
      → (a : Ptr) → has a (n ∷ h ∷ xs) ≡ false
      → Same m m' a
  Same-add n i a out =
      let na : a ≢ first_of xs h =
        apart a (first_of xs h) (h ∷ xs) (ground arith) (has-first_of h xs) in
      record { next = ground (arith, i.next a); prev = ground (arith, i.prev a); live = i.live a }

  pub Same-add_tail :
      (n : Ptr)
      → Inserted m n (last_of h xs) h m'
      → (a : Ptr) → has a (n ∷ h ∷ xs) ≡ false
      → Same m m' a
  Same-add_tail n i a out =
      let na : a ≢ last_of h xs =
        apart a (last_of h xs) (h ∷ xs) (ground arith) (has-last_of h xs) in
      record { next = ground (arith, i.next a); prev = ground (arith, i.prev a); live = i.live a }

  pub Same-del :
      (e : Ptr) (ys : List Ptr)
      → Removed m e (last_of h xs) (first_of ys h) m'
      → (a : Ptr) → has a (h ∷ (xs ++ e ∷ ys)) ≡ false
      → Same m m' a
  Same-del e ys c a out =
      let split = has-append a xs (e ∷ ys) in
      let na : a ≢ last_of h xs =
        apart a (last_of h xs) (h ∷ xs) (ground (arith, split)) (has-last_of h xs) in
      let nb : a ≢ first_of ys h =
        apart a (first_of ys h) (h ∷ ys) (ground (arith, split)) (has-first_of h ys) in
      let ne : a ≢ e = ground (arith, split) in
      record { next = ground (arith, c.next a); prev = ground (arith, c.prev a); live = c.live a }

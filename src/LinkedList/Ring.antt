-- ===== src/LinkedList/Ring.antt =====
-- What a list is in memory: a ring of links through its head.
use simple_timer.Prelude.{
  ◌≡◌, refl, ◌∙◌, Bool, true, false, ◌||◌, Option, none, some, List, [], ◌∷◌, ◌++◌, arith, ◌==◌,
}
use simple_timer.Api.{Ptr}
use simple_timer.LinkedList.{Links, Memory}

abbrev pub has : Ptr → List Ptr → Bool
has a [] = false
has a (x ∷ xs) = (x == a) || has a xs

abbrev pub IsDistinct : List Ptr → Type 0
IsDistinct [] = Unit
IsDistinct (x ∷ xs) = (has x xs ≡ false) × IsDistinct xs

abbrev pub links_or : Option Links → Links
links_or none = record { next = 0; prev = 0 }
links_or (some l) = l

abbrev pub links : Memory → Ptr → Links
links m p = links_or (m p)

-- From `p` the links `l` lead through `xs` to `q`, both ways.
abbrev pub Chain : (Ptr → Links) → Ptr → List Ptr → Ptr → Type 0
Chain l p [] q = ((l p).next ≡ q) × ((l q).prev ≡ p)
Chain l p (x ∷ xs) q = ((l p).next ≡ x) × ((l x).prev ≡ p) × Chain l x xs q

abbrev pub is_live : Option Links → Bool
is_live none = false
is_live (some l) = true

-- The list with this head has the entries `xs`, in order.
pub record IsRing (m : Memory) (head : Ptr) (xs : List Ptr) : Type 0 where
  pub chain : Chain (links m) head xs head
  pub distinct : IsDistinct (head ∷ xs)
  pub live : (a : Ptr) → has a (head ∷ xs) ≡ true → is_live (m a) ≡ true

-- The ends of a stretch of entries between `p` and `q`.
abbrev pub last_of : Ptr → List Ptr → Ptr
last_of p [] = p
last_of p (x ∷ xs) = last_of x xs

abbrev pub first_of : List Ptr → Ptr → Ptr
first_of [] q = q
first_of (x ∷ xs) q = x

pub has-last_of : (p : Ptr) (xs : List Ptr) → has (last_of p xs) (p ∷ xs) ≡ true
has-last_of p [] = ground arith
has-last_of p (x ∷ xs) = ground (arith, has-last_of x xs)

pub has-first_of : (q : Ptr) (xs : List Ptr) → has (first_of xs q) (q ∷ xs) ≡ true
has-first_of q [] = ground arith
has-first_of q (x ∷ xs) = ground arith

pub has-append : (a : Ptr) (xs ys : List Ptr) → has a (xs ++ ys) ≡ (has a xs || has a ys)
has-append a [] ys = refl
has-append a (x ∷ xs) ys = ground (arith, has-append a xs ys)

pub Chain-first :
    (l : Ptr → Links) (p q : Ptr) (xs : List Ptr) → Chain l p xs q → (l p).next ≡ first_of xs q
Chain-first l p q [] c = c.0
Chain-first l p q (x ∷ xs) c = c.0

pub Chain-last :
    (l : Ptr → Links) (p q : Ptr) (xs : List Ptr) → Chain l p xs q → (l q).prev ≡ last_of p xs
Chain-last l p q [] c = c.1
Chain-last l p q (x ∷ xs) c = Chain-last l x q xs c.2

-- A chain survives any change that spares the `next` of its start and entries, and the `prev` of its
-- entries and end.
pub Chain-frame :
    (l k : Ptr → Links) (p q : Ptr) (xs : List Ptr)
    → ((a : Ptr) → has a (p ∷ xs) ≡ true → (k a).next ≡ (l a).next)
    → ((a : Ptr) → has a (q ∷ xs) ≡ true → (k a).prev ≡ (l a).prev)
    → Chain l p xs q
    → Chain k p xs q
Chain-frame l k p q [] ahead behind c =
    (ahead p (ground arith) ∙ c.0, behind q (ground arith) ∙ c.1)
Chain-frame l k p q (x ∷ xs) ahead behind c = (
  ahead p (ground arith) ∙ c.0,
  behind x (ground arith) ∙ c.1,
  Chain-frame l k x q xs (λ a h. ahead a (ground arith)) (λ a h. behind a (ground arith)) c.2,
)

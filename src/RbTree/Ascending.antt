-- ===== src/RbTree/Ascending.antt =====
-- What a search tree stands for: a list of entries with ascending keys, and the abstract insertion
-- and lookup in it.
use simple_timer.Prelude.{
  ℕ, ◌<◌, ◌≡◌, ◌≢◌, refl, List, [], ◌∷◌, ◌++◌, arith, ◌==◌, if◌then◌else◌, ltb,
}
use simple_timer.Api.{Ptr, null}
use simple_timer.RbTree.Shape.{Entry}

abbrev pub AllUnder : ℕ → List Entry → Type 0
AllUnder k [] = Unit
AllUnder k (x ∷ xs) = (x.key < k) × AllUnder k xs

abbrev pub AllOver : ℕ → List Entry → Type 0
AllOver k [] = Unit
AllOver k (x ∷ xs) = (k < x.key) × AllOver k xs

abbrev pub IsAscending : List Entry → Type 0
IsAscending [] = Unit
IsAscending (x ∷ xs) = AllOver x.key xs × IsAscending xs

-- The entry in its place by its key; nothing new if its key is there.
abbrev pub insert_entry : Entry → List Entry → List Entry
insert_entry e [] = e ∷ []
insert_entry e (x ∷ xs) =
    let rest = insert_entry e xs in
    if ltb e.key x.key then e ∷ (x ∷ xs) else if ltb x.key e.key then x ∷ rest else x ∷ xs

-- The address of the first entry with the key, or NULL.
abbrev pub lookup : ℕ → List Entry → Ptr
lookup key [] = null
lookup key (x ∷ xs) = if x.key == key then x.at else lookup key xs

pub AllOver-lower : (j k : ℕ) (xs : List Entry) → j < k → AllOver k xs → AllOver j xs
AllOver-lower j k [] h over = tt
AllOver-lower j k (x ∷ xs) h (first, rest) = (omega arith, AllOver-lower j k xs h rest)

pub AllUnder-raise : (j k : ℕ) (xs : List Entry) → j < k → AllUnder j xs → AllUnder k xs
AllUnder-raise j k [] h under = tt
AllUnder-raise j k (x ∷ xs) h (first, rest) = (omega arith, AllUnder-raise j k xs h rest)

-- An ascending list at one of its entries.
pub record Parted (xs : List Entry) (e : Entry) (ys : List Entry) : Type 0 where
  pub under : AllUnder e.key xs
  pub over : AllOver e.key ys
  pub left : IsAscending xs
  pub right : IsAscending ys

AllOver-part :
    (k : ℕ) (xs : List Entry) (e : Entry) (ys : List Entry)
    → AllOver k (xs ++ (e ∷ ys))
    → AllOver k xs × (k < e.key)
AllOver-part k [] e ys h = (tt, h.0)
AllOver-part k (x ∷ xs) e ys (first, rest) =
    let (over, last) = AllOver-part k xs e ys rest in ((first, over), last)

pub part :
    (xs : List Entry) (e : Entry) (ys : List Entry) → IsAscending (xs ++ (e ∷ ys)) → Parted xs e ys
part [] e ys h = record { under = tt; over = h.0; left = tt; right = h.1 }
part (x ∷ xs) e ys (over, rest) =
    let p = part xs e ys rest in
    let (over_x, first) = AllOver-part x.key xs e ys over in
    record { under = (first, p.under); over = p.over; left = (over_x, p.left); right = p.right }

pub insert_entry-left :
    (e x : Entry) (xs ys : List Entry)
    → e.key < x.key
    → insert_entry e (xs ++ (x ∷ ys)) ≡ insert_entry e xs ++ (x ∷ ys)
insert_entry-left e x [] ys h = ground (arith, h)
insert_entry-left e x (y ∷ xs) ys h = ground (arith, insert_entry-left e x xs ys h)

pub insert_entry-right :
    (e x : Entry) (xs ys : List Entry)
    → x.key < e.key
    → AllUnder x.key xs
    → insert_entry e (xs ++ (x ∷ ys)) ≡ xs ++ (x ∷ insert_entry e ys)
insert_entry-right e x [] ys h under = ground (arith, h)
insert_entry-right e x (y ∷ xs) ys h (first, rest) =
    ground (arith, insert_entry-right e x xs ys h rest)

pub insert_entry-present :
    (e x : Entry) (xs ys : List Entry)
    → x.key ≡ e.key
    → AllUnder x.key xs
    → insert_entry e (xs ++ (x ∷ ys)) ≡ xs ++ (x ∷ ys)
insert_entry-present e x [] ys h under = ground (arith, h)
insert_entry-present e x (y ∷ xs) ys h (first, rest) =
    ground (arith, insert_entry-present e x xs ys h rest)

lookup-over : (key : ℕ) (xs : List Entry) → AllOver key xs → lookup key xs ≡ null
lookup-over key [] over = refl
lookup-over key (x ∷ xs) (first, rest) = ground (arith, lookup-over key xs rest)

pub lookup-left :
    (key : ℕ) (x : Entry) (xs ys : List Entry)
    → key < x.key
    → AllOver x.key ys
    → lookup key (xs ++ (x ∷ ys)) ≡ lookup key xs
lookup-left key x [] ys h over =
    ground (arith, lookup-over key ys (AllOver-lower key x.key ys h over))
lookup-left key x (y ∷ xs) ys h over = ground (arith, lookup-left key x xs ys h over)

pub lookup-right :
    (key : ℕ) (x : Entry) (xs ys : List Entry)
    → x.key < key
    → AllUnder x.key xs
    → lookup key (xs ++ (x ∷ ys)) ≡ lookup key ys
lookup-right key x [] ys h under = ground arith
lookup-right key x (y ∷ xs) ys h (first, rest) = ground (arith, lookup-right key x xs ys h rest)

pub lookup-at :
    (key : ℕ) (x : Entry) (xs ys : List Entry)
    → x.key ≡ key
    → AllUnder x.key xs
    → lookup key (xs ++ (x ∷ ys)) ≡ x.at
lookup-at key x [] ys h under = ground arith
lookup-at key x (y ∷ xs) ys h (first, rest) = ground (arith, lookup-at key x xs ys h rest)

AllOver-insert_entry :
    (k : ℕ) (e : Entry) (xs : List Entry) → k < e.key → AllOver k xs → AllOver k (insert_entry e xs)
AllOver-insert_entry k e [] h over = (h, tt)
AllOver-insert_entry k e (x ∷ xs) h (first, rest) =
    ground (arith, AllOver-insert_entry k e xs h rest)

pub insert_entry-IsAscending :
    (e : Entry) (xs : List Entry) → IsAscending xs → IsAscending (insert_entry e xs)
insert_entry-IsAscending e [] h = (tt, tt)
insert_entry-IsAscending e (x ∷ xs) (over, rest) = ground (
  arith,
  insert_entry-IsAscending e xs rest,
  AllOver-insert_entry x.key e xs,
  AllOver-lower e.key x.key xs,
)

-- No entry is at NULL.
abbrev pub IsGiven : List Entry → Type 0
IsGiven [] = Unit
IsGiven (x ∷ xs) = (x.at ≢ null) × IsGiven xs

-- Another key finds what it found; the key finds the new entry, unless it was there.
pub lookup-insert_entry :
    (key : ℕ) (e : Entry) (xs : List Entry)
    → IsGiven xs
    → IsAscending xs
    → lookup key (insert_entry e xs) ≡ (
        if key == e.key
        then (if lookup key xs == null then e.at else lookup key xs)
        else lookup key xs)
lookup-insert_entry key e [] given h = ground arith
lookup-insert_entry key e (x ∷ xs) given h = ground (
  arith,
  given.0,
  lookup-insert_entry key e xs given.1 h.1,
  lookup-over e.key xs,
  AllOver-lower e.key x.key xs,
  h.0,
)

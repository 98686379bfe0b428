-- ===== src/RbTree/Removal.antt =====
-- The abstract removal of a key from an ascending list of entries.
use simple_timer.Prelude.{ℕ, ◌<◌, ◌≡◌, refl, List, [], ◌∷◌, ◌++◌, arith, ◌==◌, if◌then◌else◌}
use simple_timer.RbTree.Shape.{Entry}
use simple_timer.RbTree.Ascending.{AllUnder, AllOver, IsAscending, AllOver-lower}

abbrev pub remove_entry : ℕ → List Entry → List Entry
remove_entry key [] = []
remove_entry key (x ∷ xs) = if x.key == key then xs else x ∷ remove_entry key xs

remove_entry-over : (key : ℕ) (xs : List Entry) → AllOver key xs → remove_entry key xs ≡ xs
remove_entry-over key [] over = refl
remove_entry-over key (x ∷ xs) (first, rest) = ground (arith, remove_entry-over key xs rest)

pub remove_entry-left :
    (key : ℕ) (x : Entry) (xs ys : List Entry)
    → key < x.key
    → AllOver x.key ys
    → remove_entry key (xs ++ (x ∷ ys)) ≡ remove_entry key xs ++ (x ∷ ys)
remove_entry-left key x [] ys h over =
    ground (arith, remove_entry-over key ys (AllOver-lower key x.key ys h over))
remove_entry-left key x (y ∷ xs) ys h over = ground (arith, remove_entry-left key x xs ys h over)

pub remove_entry-right :
    (key : ℕ) (x : Entry) (xs ys : List Entry)
    → x.key < key
    → AllUnder x.key xs
    → remove_entry key (xs ++ (x ∷ ys)) ≡ xs ++ (x ∷ remove_entry key ys)
remove_entry-right key x [] ys h under = ground arith
remove_entry-right key x (y ∷ xs) ys h (first, rest) =
    ground (arith, remove_entry-right key x xs ys h rest)

pub remove_entry-at :
    (key : ℕ) (x : Entry) (xs ys : List Entry)
    → x.key ≡ key
    → AllUnder x.key xs
    → remove_entry key (xs ++ (x ∷ ys)) ≡ xs ++ ys
remove_entry-at key x [] ys h under = ground arith
remove_entry-at key x (y ∷ xs) ys h (first, rest) =
    ground (arith, remove_entry-at key x xs ys h rest)

AllOver-remove_entry :
    (k key : ℕ) (xs : List Entry) → AllOver k xs → AllOver k (remove_entry key xs)
AllOver-remove_entry k key [] over = tt
AllOver-remove_entry k key (x ∷ xs) (first, rest) =
    ground (arith, AllOver-remove_entry k key xs rest)

pub remove_entry-IsAscending :
    (key : ℕ) (xs : List Entry) → IsAscending xs → IsAscending (remove_entry key xs)
remove_entry-IsAscending key [] h = tt
remove_entry-IsAscending key (x ∷ xs) (over, rest) =
    ground (arith, remove_entry-IsAscending key xs rest, AllOver-remove_entry x.key key xs over)

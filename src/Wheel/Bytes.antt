-- ===== src/Wheel/Bytes.antt =====
-- The block of the bitmap, as `malloc` gives it and as `memset` leaves it.
use simple_timer.Prelude.{
  ℕ, zero, suc, ◌+◌, ◌<◌, ◌≤◌, ◌≡◌, refl, ◌∙◌, ap, List, [], ◌∷◌, some, none, arith,
}
use simple_timer.Prelude.Arrays.{length, get_elem?, get_or}
use simple_timer.Wheel.Lifecycle.{bytes_from, clear_bytes}

pub length-bytes_from : (f : ℕ → ℕ) (i n : ℕ) → length (bytes_from f i n) ≡ n
length-bytes_from f i zero = refl
length-bytes_from f i (suc n) = ap suc (length-bytes_from f (i + 1) n)

pub get_elem?-bytes_from :
    (f : ℕ → ℕ) (i n j : ℕ) → j < n → get_elem? (bytes_from f i n) j ≡ some (f (i + j))
get_elem?-bytes_from f i zero j h = absurd (omega arith)
get_elem?-bytes_from f i (suc n) zero h = grind arith
get_elem?-bytes_from f i (suc n) (suc j) h =
    get_elem?-bytes_from f (i + 1) n j (omega arith) ∙ ap (λ (k : ℕ). some (f k)) (omega arith)

-- The first `n` bytes are 0, and the others those of `xs`.
pub record Cleared (n : ℕ) (xs ys : List ℕ) : Type 0 where
  pub size : length ys ≡ length xs
  pub zeros : (i : ℕ) → i < n → get_or 0 ys i ≡ 0
  pub rest : (i : ℕ) → n ≤ i → get_elem? ys i ≡ get_elem? xs i

zero-first :
    (n : ℕ) (ys : List ℕ)
    → ((i : ℕ) → i < n → get_or 0 ys i ≡ 0)
    → (i : ℕ) → i < suc n
    → get_or 0 (0 ∷ ys) i ≡ 0
unfolding get_or
zero-first n ys z zero l = refl
zero-first n ys z (suc i) l = z i (omega arith)

rest-behind :
    (n x : ℕ) (xs ys : List ℕ)
    → ((i : ℕ) → n ≤ i → get_elem? ys i ≡ get_elem? xs i)
    → (i : ℕ) → suc n ≤ i
    → get_elem? (0 ∷ ys) i ≡ get_elem? (x ∷ xs) i
rest-behind n x xs ys r zero l = absurd (omega arith)
rest-behind n x xs ys r (suc i) l = r i (omega arith)

pub clear_bytes-Cleared :
    (n : ℕ) (xs : List ℕ)
    → n ≤ length xs
    → (ys : List ℕ) × (clear_bytes n xs ≡ some ys) × Cleared n xs ys
unfolding clear_bytes get_or
clear_bytes-Cleared zero xs h =
    (xs, refl, record { size = refl; zeros = λ i l. absurd (omega arith); rest = λ i l. refl })
clear_bytes-Cleared (suc n) [] h = absurd (omega arith)
clear_bytes-Cleared (suc n) (x ∷ xs) h =
    let (ys, run, c) = clear_bytes-Cleared n xs (omega arith) in
    (
      0 ∷ ys,
      rw run,
      record {
        size = ap suc c.size;
        zeros = zero-first n ys c.zeros;
        rest = rest-behind n x xs ys c.rest;
      },
    )

pub clear_bytes-short : (n : ℕ) (xs : List ℕ) → length xs < n → clear_bytes n xs ≡ none
unfolding clear_bytes
clear_bytes-short zero xs h = absurd (omega arith)
clear_bytes-short (suc n) [] h = refl
clear_bytes-short (suc n) (x ∷ xs) h = rw (clear_bytes-short n xs (omega arith))

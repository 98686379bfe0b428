-- ===== src/IdPool/Find.antt =====
-- `find_min_id` returns the least free id of a bitmap, or 0 if there is none.
use native.Mathlib.Nat.{zero-add}
use native.Mathlib.Decide.{dec_lt}
use simple_timer.Prelude.{
  ◌∙◌, ℕ, zero, suc, ◌+◌, ◌*◌, ◌/◌, ◌%◌, ◌<◌, ◌≤◌, ◌≡◌, refl, inl, inr, Bool, true, false, List,
  arith, ◌==◌, Bool-cases, eqb→eq,
}
use simple_timer.Prelude.Arrays.{length, get_or, get_elem?-get_or}
use simple_timer.Machine.{ok}
use simple_timer.IdPool.{Pool, find_byte, find_min_id, bitmap_bytes, before}
use simple_timer.IdPool.Bits.{bit, bit-full, find_bit-first}

-- The bit of the id `n + 1`.
unfoldable pub taken : List ℕ → ℕ → Bool
taken tmp n = bit (get_or 0 tmp (n / 8)) (n % 8)

-- Among the ids up to `8 * bytes`, `r` is the least free one, or 0 if all of them are taken.
pub record IsMinFree (tmp : List ℕ) (bytes r : ℕ) : Type 0 where
  pub below : (n : ℕ) → suc n < r → taken tmp n ≡ true
  pub free : (n : ℕ) → suc n ≡ r → taken tmp n ≡ false
  pub range : r ≤ bytes * 8
  pub full : r ≡ 0 → (n : ℕ) → n < bytes * 8 → taken tmp n ≡ true

-- Every entry of the bitmap is a byte.
abbrev pub IsBytes : List ℕ → Type 0
IsBytes tmp = (i : ℕ) → i < length tmp → get_or 0 tmp i < 256

taken-at : (tmp : List ℕ) (i n : ℕ) → n / 8 ≡ i → taken tmp n ≡ bit (get_or 0 tmp i) (n % 8)
unfolding taken
taken-at tmp i n at = rw at

-- The ids of the first `i` bytes are taken.
abbrev AllTaken : List ℕ → ℕ → Type 0
AllTaken tmp i = (n : ℕ) → n < i * 8 → taken tmp n ≡ true

AllTaken-suc : (tmp : List ℕ) (i : ℕ) → AllTaken tmp i → get_or 0 tmp i ≡ 255 → AllTaken tmp (i + 1)
AllTaken-suc tmp i before e n h = elim (dec_lt n (i * 8)) [
  | yes low ↦ before n low
  | no high ↦ taken-at tmp i n (omega arith) ∙ rw e (bit-full (n % 8) (omega arith))
]

-- The first clear bit of the first byte that has one is that of the least free id.
IsMinFree-byte :
    (tmp : List ℕ) (i c bytes : ℕ)
    → AllTaken tmp i
    → c < 8
    → i < bytes
    → bit (get_or 0 tmp i) c ≡ false
    → ((k : ℕ) → k < c → bit (get_or 0 tmp i) k ≡ true)
    → IsMinFree tmp bytes (i * 8 + c + 1)
IsMinFree-byte tmp i c bytes before small inside clear lower = record {
  below = λ n h. elim (dec_lt n (i * 8)) [
    | yes low ↦ before n low
    | no high ↦ taken-at tmp i n (omega arith) ∙ lower (n % 8) (omega arith)
  ];
  free = λ n h. let at : n % 8 ≡ c = omega arith in taken-at tmp i n (omega arith) ∙ rw at clear;
  range = omega arith;
  full = λ e n h. absurd (omega arith);
}

find_byte-IsMinFree :
    (rounds i : ℕ) (tmp : List ℕ) (p : Pool)
    → IsBytes tmp
    → i + rounds ≤ length tmp
    → AllTaken tmp i
    → (r : ℕ) × (find_byte rounds i tmp p ≡ ok r p) × IsMinFree tmp (i + rounds) r
unfolding find_byte
find_byte-IsMinFree zero i tmp p bytes fits before = (
  0,
  refl,
  record {
    below = λ n h. absurd (omega arith);
    free = λ n h. absurd (omega arith);
    range = omega arith;
    full = λ e n h. before n (omega arith);
  },
)
find_byte-IsMinFree (suc rounds) i tmp p bytes fits before =
    elim (Bool-cases (get_or 0 tmp i == 255)) [
      | inl all ↦
          let full : get_or 0 tmp i ≡ 255 = eqb→eq _ _ all in
          let (r, run, v) =
            find_byte-IsMinFree rounds (i + 1) tmp p bytes (omega arith)
              (AllTaken-suc tmp i before full) in
          let e : i + 1 + rounds ≡ i + suc rounds = omega arith in
          (r, rw (get_elem?-get_or 0 tmp i (omega arith), all) run, rw e at v)
      | inr some_clear ↦
          let (c, found, small, clear, lower) =
            find_bit-first (get_or 0 tmp i) (bytes i (omega arith)) some_clear in
          (
            i * 8 + c + 1,
            rw (get_elem?-get_or 0 tmp i (omega arith), some_clear, found),
            IsMinFree-byte tmp i c (i + suc rounds) before small (omega arith) clear lower,
          )
    ]

-- On a bitmap of bytes that has the length for `len` ids, `find_min_id` ends, stays within the
-- bitmap, and returns the least free id, or 0 if all are taken.
pub find_min_id-IsMinFree :
    (tmp : List ℕ) (len : ℕ) (p : Pool)
    → IsBytes tmp
    → length tmp ≡ bitmap_bytes len
    → (r : ℕ) × (find_min_id tmp len p ≡ ok r p) × IsMinFree tmp (bitmap_bytes len) r
unfolding find_min_id
find_min_id-IsMinFree tmp len p bytes size =
    let (r, run, v) =
      find_byte-IsMinFree (bitmap_bytes len) 0 tmp p bytes (omega (arith, size))
        (λ n h. absurd (omega arith)) in
    (r, run, rw zero-add at v)

-- ===== src/IdPool/Bits.antt =====
-- A bit of a byte, and what the masks of src/timer.c do to it, by evaluation of every case.
use Prim.Native.Nat.{bit_and, bit_or}
use mathlib.Core.Bool.{false≢true}
use simple_timer.Prelude.{
  ℕ, zero, suc, ◌-◌, ◌/◌, ◌%◌, ◌^◌, ◌<◌, ◌≡◌, refl, Bool, true, false, ◌&&◌, not, Option, none,
  some, arith, ◌==◌, if◌then◌else◌, ltb, ltb→lt, Option-cases, inl, inr,
}
use simple_timer.IdPool.{find_bit}

-- Bit `j` of a byte, counted from the highest.
unfoldable pub bit : ℕ → ℕ → Bool
bit b j = (b / 2 ^ (7 - j)) % 2 == 1

-- A test on the numbers under a bound, all of them run.
every : ℕ → (ℕ → Bool) → Bool
every zero test = true
every (suc bound) test = every bound test && test bound

every-case :
    (bound value : ℕ) (test : ℕ → Bool)
    → value < bound
    → every bound test ≡ true
    → test value ≡ true
unfolding every
every-case zero value test under run = absurd (omega arith)
every-case (suc bound) value test under run = ground (arith, every-case bound value test)

abbrev same : Bool → Bool → Bool
same true b = b
same false b = not b

split_and : (a b : Bool) → (a && b) ≡ true → (a ≡ true) × (b ≡ true)
split_and true b h = (refl, h)
split_and false b h = cc

same_sound : (a b : Bool) → same a b ≡ true → a ≡ b
same_sound true b h = ground arith
same_sound false b h = ground arith

-- The test `p` holds of every byte and two indices of bits.
abbrev holds_of_bytes : (ℕ → ℕ → ℕ → Bool) → Bool
holds_of_bytes p = every 256 λ b. every 8 λ j. every 8 λ k. p b j k

byte_case :
    (p : ℕ → ℕ → ℕ → Bool) (b j k : ℕ)
    → holds_of_bytes p ≡ true
    → b < 256
    → j < 8
    → k < 8
    → p b j k ≡ true
byte_case p b j k h hb hj hk =
    every-case 8 k (λ k. p b j k) hk
      (every-case 8 j (λ j. every 8 λ k. p b j k) hj
        (every-case 256 b (λ b. every 8 λ j. every 8 λ k. p b j k) hb h))

abbrev or_test : ℕ → ℕ → ℕ → Bool
or_test b j k =
    ltb (bit_or b (128 / 2 ^ j)) 256
    && same (bit (bit_or b (128 / 2 ^ j)) k) (if j == k then true else bit b k)

abbrev and_test : ℕ → ℕ → ℕ → Bool
and_test b j k =
    ltb (bit_and b (255 - 128 / 2 ^ j)) 256
    && same (bit (bit_and b (255 - 128 / 2 ^ j)) k) (if j == k then false else bit b k)

or_table : holds_of_bytes or_test ≡ true
unfolding every bit
or_table = refl

and_table : holds_of_bytes and_test ≡ true
unfolding every bit
and_table = refl

-- Setting bit `j` sets that bit of the byte and no other.
pub bit-or :
    (b j k : ℕ)
    → b < 256
    → j < 8
    → k < 8
    → (bit_or b (128 / 2 ^ j) < 256)
      × (bit (bit_or b (128 / 2 ^ j)) k ≡ (if j == k then true else bit b k))
bit-or b j k hb hj hk =
    let (small, equal) = split_and _ _ (byte_case or_test b j k or_table hb hj hk) in
    (ltb→lt _ _ small, same_sound _ _ equal)

-- Clearing bit `j` clears that bit of the byte and no other.
pub bit-and :
    (b j k : ℕ)
    → b < 256
    → j < 8
    → k < 8
    → (bit_and b (255 - 128 / 2 ^ j) < 256)
      × (bit (bit_and b (255 - 128 / 2 ^ j)) k ≡ (if j == k then false else bit b k))
bit-and b j k hb hj hk =
    let (small, equal) = split_and _ _ (byte_case and_test b j k and_table hb hj hk) in
    (ltb→lt _ _ small, same_sound _ _ equal)

-- The inner loop of `find_min_id` finds the first clear bit.
abbrev first_clear : ℕ → Option ℕ → ℕ → Bool
first_clear b none k = false
first_clear b (some c) k = ltb c 8 && (not (bit b c) && (if ltb k c then bit b k else true))

abbrev find_test : ℕ → ℕ → ℕ → Bool
find_test b j k = if b == 255 then bit b k else first_clear b (find_bit 8 b 0x80 0) k

find_table : holds_of_bytes find_test ≡ true
unfolding every find_bit bit
find_table = refl

-- All bits of the byte 255 are set.
pub bit-full : (k : ℕ) → k < 8 → bit 255 k ≡ true
bit-full k hk = byte_case find_test 255 0 k find_table (omega arith) (omega arith) hk

-- A byte other than 255 has a first clear bit, and the inner loop returns it within its fuel.
pub find_bit-first :
    (b : ℕ)
    → b < 256
    → (b == 255) ≡ false
    → (c : ℕ) × (find_bit 8 b 0x80 0 ≡ some c)
      × (c < 8)
      × (bit b c ≡ false)
      × ((k : ℕ) → k < c → bit b k ≡ true)
find_bit-first b hb ne = elim (Option-cases (find_bit 8 b 0x80 0)) [
  | inl lost ↦ absurd (false≢true (rw (ne, lost) at (case 0 (omega arith))))
  | inr (c, found) ↦
      let at = λ (k : ℕ) (hk : k < 8). rw (ne, found) at (case k hk) in
      let small : c < 8 = ltb→lt _ _ (split_and _ _ (at 0 (omega arith))).0 in
      (c, found, small, ground (arith, at c small), λ k h. ground (arith, at k (omega arith)))
]
  where
    case : (k : ℕ) → k < 8 → find_test b 0 k ≡ true
    case k hk = byte_case find_test b 0 k find_table hb (omega arith) hk

-- ===== src/IdPool/Writes.antt =====
-- What `set_bit` and `unset_bit` do to the ids that are taken.
use Prim.Native.Nat.{bit_and, bit_or}
use simple_timer.Prelude.{
  ℕ, suc, ◌-◌, ◌/◌, ◌%◌, ◌^◌, ◌<◌, ◌≡◌, refl, inl, inr, Bool, true, false, List, arith, ◌∙◌, ◌==◌,
  if◌then◌else◌, Bool-cases, eqb→eq, eqb→ne, ne→eqb, eqb_refl,
}
use simple_timer.Prelude.Arrays.{length, get_or, set, get_elem?-get_or, get_or-set, length-set}
use simple_timer.Machine.{ok}
use simple_timer.IdPool.{Pool, before, set_bit, unset_bit}
use simple_timer.IdPool.Bits.{bit, bit-or, bit-and}
use simple_timer.IdPool.Find.{taken, IsBytes}

pub before-suc : (n : ℕ) → n < 2 ^ 32 → before (suc n) ≡ n
unfolding before
before-suc n small = omega arith

-- A write to byte `n / 8` that changes bit `n % 8` alone changes the id `n + 1` alone.
taken-write :
    (tmp : List ℕ) (n m v : ℕ) (b : Bool)
    → n / 8 < length tmp
    → ((k : ℕ) → k < 8 → bit v k ≡ (if n % 8 == k then b else bit (get_or 0 tmp (n / 8)) k))
    → taken (set tmp (n / 8) v) m ≡ (if n == m then b else taken tmp m)
unfolding taken
taken-write tmp n m v b inside change = elim (Bool-cases (n / 8 == m / 8)) [
  | inr other ↦ rw (
    get_or-set 0 tmp (n / 8) (m / 8) v inside,
    other,
    ne→eqb n m (omega (arith, eqb→ne _ _ other)),
  )
  | inl one ↦
      rw (get_or-set 0 tmp (n / 8) (m / 8) v inside, one)
        (change (m % 8) (omega arith) ∙ elim (Bool-cases (n == m)) [
          | inl same ↦
              let e : n % 8 ≡ m % 8 = omega (arith, eqb→eq n m same) in
              rw (same, e, eqb_refl (m % 8))
          | inr apart ↦
              let at : n / 8 ≡ m / 8 = eqb→eq _ _ one in
              let e : (n % 8 == m % 8) ≡ false = ne→eqb _ _ (omega (arith, eqb→ne n m apart)) in
              rw (apart, e, at)
        ])
]

module _ (p : Pool) (n : ℕ) (bytes : IsBytes p.timer_fd_bitmap)
    (inside : n / 8 < length p.timer_fd_bitmap) (small : n < 2 ^ 32) where
  abbrev with_byte : ℕ → Pool
  with_byte v = record p { timer_fd_bitmap = set p.timer_fd_bitmap (n / 8) v }

  set_bit-ok :
      set_bit (suc n) p
      ≡ ok tt (with_byte (bit_or (get_or 0 p.timer_fd_bitmap (n / 8)) (128 / 2 ^ (n % 8))))
  unfolding set_bit
  set_bit-ok = rw (
    before-suc n small,
    set_bit,
    get_elem?-get_or 0 p.timer_fd_bitmap (n / 8) inside,
    before-suc n small,
  )

  unset_bit-ok :
      unset_bit (suc n) p
      ≡ ok tt (with_byte (bit_and (get_or 0 p.timer_fd_bitmap (n / 8)) (255 - 128 / 2 ^ (n % 8))))
  unfolding unset_bit
  unset_bit-ok = rw (
    before-suc n small,
    unset_bit,
    get_elem?-get_or 0 p.timer_fd_bitmap (n / 8) inside,
    before-suc n small,
  )

IsBytes-set :
    (tmp : List ℕ) (i v : ℕ) → i < length tmp → IsBytes tmp → v < 256 → IsBytes (set tmp i v)
IsBytes-set tmp i v inside bytes small j h =
    ground (arith, get_or-set 0 tmp i j v inside, bytes j, length-set tmp i v)

-- A bitmap in which the id `n + 1` has been set to `b`, and no other has changed.
pub record Changed (p : Pool) (n : ℕ) (b : Bool) (q : Pool) : Type 0 where
  pub size : length q.timer_fd_bitmap ≡ length p.timer_fd_bitmap
  pub bytes : IsBytes q.timer_fd_bitmap
  pub bits : (m : ℕ) → taken q.timer_fd_bitmap m ≡ (if n == m then b else taken p.timer_fd_bitmap m)
  pub max : q.timer_max_num ≡ p.timer_max_num
  pub min : q.timer_fd_min_free ≡ p.timer_fd_min_free

module _ (p : Pool) (n : ℕ) (bytes : IsBytes p.timer_fd_bitmap)
    (inside : n / 8 < length p.timer_fd_bitmap) (small : n < 2 ^ 32) where
  pub set_bit-Changed : (q : Pool) × (set_bit (suc n) p ≡ ok tt q) × Changed p n true q
  set_bit-Changed =
      let b = get_or 0 p.timer_fd_bitmap (n / 8) in
      let at = λ (k : ℕ) (h : k < 8). bit-or b (n % 8) k (bytes (n / 8) inside) (omega arith) h in
      (
        with_byte p n bytes inside small (bit_or b (128 / 2 ^ (n % 8))),
        set_bit-ok p n bytes inside small,
        record {
          size = length-set _ _ _;
          bytes = IsBytes-set _ _ _ inside bytes (at 0 (omega arith)).0;
          bits = λ m. taken-write p.timer_fd_bitmap n m _ true inside (λ k h. (at k h).1);
          max = refl;
          min = refl;
        },
      )

  pub unset_bit-Changed : (q : Pool) × (unset_bit (suc n) p ≡ ok tt q) × Changed p n false q
  unset_bit-Changed =
      let b = get_or 0 p.timer_fd_bitmap (n / 8) in
      let at = λ (k : ℕ) (h : k < 8). bit-and b (n % 8) k (bytes (n / 8) inside) (omega arith) h in
      (
        with_byte p n bytes inside small (bit_and b (255 - 128 / 2 ^ (n % 8))),
        unset_bit-ok p n bytes inside small,
        record {
          size = length-set _ _ _;
          bytes = IsBytes-set _ _ _ inside bytes (at 0 (omega arith)).0;
          bits = λ m. taken-write p.timer_fd_bitmap n m _ false inside (λ k h. (at k h).1);
          max = refl;
          min = refl;
        },
      )

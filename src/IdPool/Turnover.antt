-- ===== src/IdPool/Turnover.antt =====
-- `timer_id_pop` and `timer_id_push`: ids are given out least first and taken back.
use mathlib.Core.Path.{subst}
use simple_timer.Prelude.{
  ℕ, suc, ◌+◌, ◌*◌, ◌/◌, ◌^◌, ◌<◌, ◌≤◌, ◌≡◌, ◌≢◌, inl, inr, Bool, true, false, arith, ◌∙◌, ap, sym,
  ◌==◌, if◌then◌else◌, ltb, Bool-cases, ne→eqb,
}
use simple_timer.Prelude.Arrays.{length}
use simple_timer.Machine.{ok}
use simple_timer.IdPool.{
  Pool, bitmap_bytes, set_bit, unset_bit, find_min_id, timer_id_pop, timer_id_push,
}
use simple_timer.IdPool.Writes.{Changed, set_bit-Changed, unset_bit-Changed}
use simple_timer.IdPool.Find.{taken, IsMinFree, IsBytes, find_min_id-IsMinFree}

-- The bitmap has the bytes that `timer_max_num` asks for, and the least free id is known.
pub record IsPool (p : Pool) : Type 0 where
  pub size : length p.timer_fd_bitmap ≡ bitmap_bytes p.timer_max_num
  pub bytes : IsBytes p.timer_fd_bitmap
  pub positive : 0 < p.timer_max_num
  pub small : p.timer_max_num < 2 ^ 31
  pub least : IsMinFree p.timer_fd_bitmap (bitmap_bytes p.timer_max_num) p.timer_fd_min_free

pub bitmap_bytes-bounds :
    (n : ℕ) → 0 < n → n < 2 ^ 31 → (n ≤ bitmap_bytes n * 8) × (bitmap_bytes n * 8 < n + 8)
unfolding bitmap_bytes
bitmap_bytes-bounds n pos small = omega arith

module _ {p : Pool} (v : IsPool p) (n : ℕ) (exists_id : n < bitmap_bytes p.timer_max_num * 8) where
  pub id_inside : n / 8 < length p.timer_fd_bitmap
  id_inside = omega (arith, v.size)

  pub id_small : n < 2 ^ 32
  id_small = omega (arith, bitmap_bytes-bounds p.timer_max_num v.positive v.small, v.small)

pop-run :
    (p q : Pool) (r : ℕ)
    → set_bit p.timer_fd_min_free p ≡ ok tt q
    → find_min_id q.timer_fd_bitmap q.timer_max_num q ≡ ok r q
    → timer_id_pop p ≡ ok p.timer_fd_min_free (record q { timer_fd_min_free = r })
unfolding timer_id_pop
pop-run p q r run found = rw (run, found)

pub push-run :
    (p q : Pool) (id : ℕ)
    → unset_bit id p ≡ ok tt q
    → timer_id_push id p
      ≡ ok tt (if ltb id q.timer_fd_min_free then record q { timer_fd_min_free = id } else q)
unfolding timer_id_push
push-run p q id run = rw run

-- In a consistent pool whose least free id is `n + 1`, `timer_id_pop` returns that id, which was
-- free and is then taken, and below which all ids were taken; no other id changes, and the pool is
-- consistent again.
pub timer_id_pop-IsPool :
    {p : Pool} (n : ℕ)
    → IsPool p
    → p.timer_fd_min_free ≡ suc n
    → (q : Pool) × (timer_id_pop p ≡ ok (suc n) q)
      × IsPool q
      × (taken p.timer_fd_bitmap n ≡ false)
      × ((m : ℕ) → m < n → taken p.timer_fd_bitmap m ≡ true)
      × ((m : ℕ) → taken q.timer_fd_bitmap m ≡ (if n == m then true else taken p.timer_fd_bitmap m))
      × (q.timer_max_num ≡ p.timer_max_num)
timer_id_pop-IsPool {p} n v e =
    let exists_id : n < bitmap_bytes p.timer_max_num * 8 = omega (arith, v.least.range) in
    let (q, run, c) =
      set_bit-Changed p n v.bytes (id_inside v n exists_id) (id_small v n exists_id) in
    let size : length q.timer_fd_bitmap ≡ bitmap_bytes q.timer_max_num =
      c.size ∙ v.size ∙ ap bitmap_bytes (sym c.max) in
    let (r, found, least) =
      find_min_id-IsMinFree q.timer_fd_bitmap q.timer_max_num q c.bytes size in
    (
      record q { timer_fd_min_free = r },
      pop-run p q r (subst (λ (i : ℕ). set_bit i p ≡ ok tt q) (sym e) run) found
          ∙ ap (λ (i : ℕ). ok i (record q { timer_fd_min_free = r })) e,
      record {
        size = size;
        bytes = c.bytes;
        positive = rw c.max v.positive;
        small = rw c.max v.small;
        least = least;
      },
      v.least.free n (sym e),
      λ m h. v.least.below m (omega arith),
      c.bits,
      c.max,
    )

-- A changed bitmap is a pool again once its least free id is known.
IsPool-min :
    {p q : Pool} {n : ℕ} {b : Bool}
    → IsPool p
    → Changed p n b q
    → (r : ℕ) → IsMinFree q.timer_fd_bitmap (bitmap_bytes p.timer_max_num) r
    → IsPool (record q { timer_fd_min_free = r })
IsPool-min v c r least = record {
  size = c.size ∙ v.size ∙ ap bitmap_bytes (sym c.max);
  bytes = c.bytes;
  positive = rw c.max v.positive;
  small = rw c.max v.small;
  least = rw c.max least;
}

-- In a consistent pool that has a free id, `timer_id_push` of the id `n + 1`, within the bitmap,
-- makes it free and changes no other id; the pool is consistent again and has a least free id.
pub timer_id_push-IsPool :
    {p : Pool} (n : ℕ)
    → IsPool p
    → n < bitmap_bytes p.timer_max_num * 8
    → p.timer_fd_min_free ≢ 0
    → (q : Pool) × (timer_id_push (suc n) p ≡ ok tt q)
      × IsPool q
      × ((m : ℕ)
          → taken q.timer_fd_bitmap m ≡ (if n == m then false else taken p.timer_fd_bitmap m))
      × (q.timer_max_num ≡ p.timer_max_num)
      × (q.timer_fd_min_free ≢ 0)
timer_id_push-IsPool {p} n v exists_id some_free =
    let (q, run, c) =
      unset_bit-Changed p n v.bytes (id_inside v n exists_id) (id_small v n exists_id) in
    elim (Bool-cases (ltb (suc n) q.timer_fd_min_free)) [
      | inl lower ↦ (
        record q { timer_fd_min_free = suc n },
        push-run p q (suc n) run ∙ rw lower,
        IsPool-min v c (suc n) (record {
          below = λ m h.
              rw (c.bits m, ne→eqb n m (omega arith)) (v.least.below m (ground (arith, c.min)));
          free = λ m h. ground (arith, c.bits m);
          range = omega arith;
          full = λ z. absurd (omega arith);
        }),
        c.bits,
        c.max,
        omega arith,
      )
      | inr higher ↦ (
        q,
        push-run p q (suc n) run ∙ rw higher,
        IsPool-min v c q.timer_fd_min_free (record {
          below = λ m h.
              rw (c.bits m, ne→eqb n m (ground arith)) (v.least.below m (ground (arith, c.min)));
          free = λ m h. ground (arith, c.bits m, v.least.free m, c.min);
          range = rw c.min v.least.range;
          full = λ z. absurd (some_free (sym c.min ∙ z));
        }),
        c.bits,
        c.max,
        rw c.min some_free,
      )
    ]

-- ===== src/IdPool/Tests.antt =====
-- Pools of nine timers, which have sixteen ids, and the theorems at them.
use simple_timer.Prelude.{
  ap, ◌∙◌, sym, ℕ, zero, suc, ◌<◌, ◌≡◌, ◌≢◌, refl, true, false, [], ◌∷◌, arith, ◌==◌, if◌then◌else◌,
}
use simple_timer.Prelude.Arrays.{get_or, length}
use simple_timer.Machine.{Run, ok, fault}
use simple_timer.IdPool.{
  Pool, before, find_byte, find_bit, bitmap_bytes, find_min_id, timer_id_pop, timer_id_push,
}
use simple_timer.IdPool.Bits.{bit}
use simple_timer.IdPool.Find.{taken, IsMinFree, IsBytes, find_min_id-IsMinFree}
use simple_timer.IdPool.Turnover.{IsPool, timer_id_pop-IsPool, timer_id_push-IsPool}
use simple_timer.IdPool.Exhaustion.{timer_id_push-exhausted, timer_id_push-pop}

-- The ids 1 to 9 are taken.
abbrev nine_taken : Pool
nine_taken = record { timer_fd_bitmap = 255 ∷ 128 ∷ []; timer_fd_min_free = 10; timer_max_num = 9 }

-- All sixteen ids are taken.
abbrev all_taken : Pool
all_taken = record { timer_fd_bitmap = 255 ∷ 255 ∷ []; timer_fd_min_free = 0; timer_max_num = 9 }

IsBytes-two : (a b : ℕ) → a < 256 → b < 256 → IsBytes (a ∷ b ∷ [])
unfolding get_or
IsBytes-two a b p q zero h = p
IsBytes-two a b p q (suc zero) h = q
IsBytes-two a b p q (suc (suc i)) h = absurd (omega arith)

sixteen_ids : bitmap_bytes 9 ≡ 2
unfolding bitmap_bytes before
sixteen_ids = refl

find_min_id-IsMinFree_example :
    (r : ℕ) × (find_min_id (255 ∷ 128 ∷ []) 9 nine_taken ≡ ok r nine_taken)
    × IsMinFree (255 ∷ 128 ∷ []) (bitmap_bytes 9) r
find_min_id-IsMinFree_example =
    find_min_id-IsMinFree (255 ∷ 128 ∷ []) 9 nine_taken
      (IsBytes-two 255 128 (omega arith) (omega arith)) (sym sixteen_ids)

finds_ten : find_min_id (255 ∷ 128 ∷ []) 9 nine_taken ≡ ok 10 nine_taken
unfolding find_min_id bitmap_bytes before find_byte find_bit
finds_ten = refl

finds_none : find_min_id (255 ∷ 255 ∷ []) 9 all_taken ≡ ok 0 all_taken
unfolding find_min_id bitmap_bytes before find_byte find_bit
finds_none = refl

abbrev result_or : ℕ → Run Pool ℕ → ℕ
result_or d (ok n p) = n
result_or d _ = d

-- What the search finds in the bitmap of a pool is its least free id.
least_found :
    (p : Pool) (r : ℕ)
    → IsBytes p.timer_fd_bitmap
    → length p.timer_fd_bitmap ≡ bitmap_bytes p.timer_max_num
    → find_min_id p.timer_fd_bitmap p.timer_max_num p ≡ ok r p
    → IsMinFree p.timer_fd_bitmap (bitmap_bytes p.timer_max_num) r
least_found p r bytes size found =
    let (s, run, v) = find_min_id-IsMinFree p.timer_fd_bitmap p.timer_max_num p bytes size in
    let e : s ≡ r = ap (result_or 0) (sym run ∙ found) in rw e at v

nine_taken-IsPool : IsPool nine_taken
nine_taken-IsPool = record {
  size = sym sixteen_ids;
  bytes = IsBytes-two 255 128 (omega arith) (omega arith);
  positive = omega arith;
  small = omega arith;
  least =
      least_found nine_taken 10 (IsBytes-two 255 128 (omega arith) (omega arith)) (sym sixteen_ids)
        finds_ten;
}

all_taken-IsPool : IsPool all_taken
all_taken-IsPool = record {
  size = sym sixteen_ids;
  bytes = IsBytes-two 255 255 (omega arith) (omega arith);
  positive = omega arith;
  small = omega arith;
  least =
      least_found all_taken 0 (IsBytes-two 255 255 (omega arith) (omega arith)) (sym sixteen_ids)
        finds_none;
}

timer_id_pop-IsPool_example :
    (q : Pool) × (timer_id_pop nine_taken ≡ ok 10 q)
    × IsPool q
    × (taken (255 ∷ 128 ∷ []) 9 ≡ false)
    × ((m : ℕ) → m < 9 → taken (255 ∷ 128 ∷ []) m ≡ true)
    × ((m : ℕ) → taken q.timer_fd_bitmap m ≡ (if 9 == m then true else taken (255 ∷ 128 ∷ []) m))
    × (q.timer_max_num ≡ 9)
timer_id_pop-IsPool_example = timer_id_pop-IsPool 9 nine_taken-IsPool refl

timer_id_push-IsPool_example :
    (q : Pool) × (timer_id_push 3 nine_taken ≡ ok tt q)
    × IsPool q
    × ((m : ℕ) → taken q.timer_fd_bitmap m ≡ (if 2 == m then false else taken (255 ∷ 128 ∷ []) m))
    × (q.timer_max_num ≡ 9)
    × (q.timer_fd_min_free ≢ 0)
timer_id_push-IsPool_example =
    timer_id_push-IsPool 2 nine_taken-IsPool (rw sixteen_ids (omega arith)) (omega arith)

last_free : taken (255 ∷ 128 ∷ []) 15 ≡ false
unfolding taken bit get_or
last_free = refl

timer_id_push-pop_example :
    (q : Pool) × (timer_id_pop nine_taken ≡ ok 10 q)
    × (r : Pool) × (timer_id_push 10 q ≡ ok tt r)
    × ((m : ℕ) → taken r.timer_fd_bitmap m ≡ taken (255 ∷ 128 ∷ []) m)
    × (r.timer_fd_min_free ≡ 10)
timer_id_push-pop_example =
    timer_id_push-pop 9 15 nine_taken-IsPool refl (rw sixteen_ids (omega arith)) (omega arith)
      last_free

timer_id_push-exhausted_example :
    (q : Pool) × (timer_id_push 3 all_taken ≡ ok tt q)
    × (taken q.timer_fd_bitmap 2 ≡ false)
    × (q.timer_fd_min_free ≡ 0)
    × (timer_id_pop q ≡ fault)
timer_id_push-exhausted_example =
    timer_id_push-exhausted 2 all_taken-IsPool (rw sixteen_ids (omega arith)) refl

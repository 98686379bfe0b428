-- ===== src/IdPool/Exhaustion.antt =====
-- `timer_id_push` after all ids were taken, and after a `timer_id_pop`.
use mathlib.Core.Path.{subst}
use mathlib.Core.Bool.{false≢true}
use simple_timer.Prelude.{
  ℕ, suc, ◌-◌, ◌*◌, ◌/◌, ◌^◌, ◌<◌, ◌≤◌, ◌≡◌, ◌≢◌, refl, inl, inr, true, false, List, arith, ◌∙◌,
  sym, ◌==◌, if◌then◌else◌, ltb, Bool-cases, le→ltb, eqb_refl, eqb→eq,
}
use simple_timer.Prelude.Arrays.{length, get_elem?-none}
use simple_timer.Machine.{ok, fault}
use simple_timer.IdPool.{Pool, before, bitmap_bytes, set_bit, timer_id_pop, timer_id_push}
use simple_timer.IdPool.Find.{taken, IsMinFree}
use simple_timer.IdPool.Writes.{unset_bit-Changed}
use simple_timer.IdPool.Turnover.{
  IsPool, bitmap_bytes-bounds, id_inside, id_small, push-run, timer_id_pop-IsPool,
  timer_id_push-IsPool,
}

-- The mask of the id 0 lies far behind the bitmap.
set_bit-zero : (p : Pool) → length p.timer_fd_bitmap < 2 ^ 29 - 1 → set_bit 0 p ≡ fault
unfolding set_bit
set_bit-zero p short = rw (set_bit, get_elem?-none p.timer_fd_bitmap (before 0 / 8) (omega arith))

pop-zero :
    (p : Pool)
    → p.timer_fd_min_free ≡ 0
    → length p.timer_fd_bitmap < 2 ^ 29 - 1
    → timer_id_pop p ≡ fault
unfolding timer_id_pop
pop-zero p none_free short =
    rw (subst (λ (i : ℕ). set_bit i p ≡ fault) (sym none_free) (set_bit-zero p short))

-- In a consistent pool of which all ids have been taken, to give one back makes it free in the
-- bitmap, but the pool goes on saying that no id is free, and the next `timer_id_pop` writes out of
-- the bitmap's bounds.
pub timer_id_push-exhausted :
    {p : Pool} (n : ℕ)
    → IsPool p
    → n < bitmap_bytes p.timer_max_num * 8
    → p.timer_fd_min_free ≡ 0
    → (q : Pool) × (timer_id_push (suc n) p ≡ ok tt q)
      × (taken q.timer_fd_bitmap n ≡ false)
      × (q.timer_fd_min_free ≡ 0)
      × (timer_id_pop q ≡ fault)
timer_id_push-exhausted {p} n v exists_id none_free =
    let (q, run, c) =
      unset_bit-Changed p n v.bytes (id_inside v n exists_id) (id_small v n exists_id) in
    let zero_min : q.timer_fd_min_free ≡ 0 = c.min ∙ none_free in
    let short : length q.timer_fd_bitmap < 2 ^ 29 - 1 =
      omega
        (arith, c.size, v.size, bitmap_bytes-bounds p.timer_max_num v.positive v.small, v.small) in
    (
      q,
      push-run p q (suc n) run ∙ rw (le→ltb (suc n) q.timer_fd_min_free (omega arith)),
      c.bits n ∙ rw (eqb_refl n),
      zero_min,
      pop-zero q zero_min short,
    )

-- Bitmaps with the same ids taken have one least free id.
min_free_unique :
    {tmp out : List ℕ} {b r s : ℕ}
    → IsMinFree tmp b r
    → IsMinFree out b s
    → ((m : ℕ) → taken tmp m ≡ taken out m)
    → r ≢ 0
    → s ≢ 0
    → r ≤ s
min_free_unique {r} {s} u v same some_r some_s = elim (Bool-cases (ltb s r)) [
  | inr bounded ↦ ground arith
  | inl above ↦
      let e : suc (s - 1) ≡ s = omega arith in
      absurd
        (false≢true (sym (v.free (s - 1) e) ∙ sym (same (s - 1)) ∙ u.below (s - 1) (ground arith)))
]

-- In a consistent pool, if the least free id is taken while another one is free, and then given
-- back, the ids that are taken and the least free id are those of before.
pub timer_id_push-pop :
    {p : Pool} (n k : ℕ)
    → IsPool p
    → p.timer_fd_min_free ≡ suc n
    → k < bitmap_bytes p.timer_max_num * 8
    → k ≢ n
    → taken p.timer_fd_bitmap k ≡ false
    → (q : Pool) × (timer_id_pop p ≡ ok (suc n) q)
      × (r : Pool) × (timer_id_push (suc n) q ≡ ok tt r)
      × ((m : ℕ) → taken r.timer_fd_bitmap m ≡ taken p.timer_fd_bitmap m)
      × (r.timer_fd_min_free ≡ p.timer_fd_min_free)
timer_id_push-pop {p} n k v e inside other free =
    let (q, run, w, was_free, lower, bits, max) = timer_id_pop-IsPool n v e in
    let exists_id : n < bitmap_bytes q.timer_max_num * 8 = rw max (omega (arith, v.least.range)) in
    let still : taken q.timer_fd_bitmap k ≡ false = ground (arith, bits k) in
    let some_free : q.timer_fd_min_free ≢ 0 =
      λ z. false≢true (sym still ∙ w.least.full z k (rw max inside)) in
    let (r, back, x, bits', max', some_r) = timer_id_push-IsPool n w exists_id some_free in
    let same = λ (m : ℕ).
      restored r.timer_fd_bitmap q.timer_fd_bitmap p.timer_fd_bitmap n m (bits' m) (bits m)
        was_free in
    let least =
      subst (λ (k : ℕ). IsMinFree r.timer_fd_bitmap (bitmap_bytes k) r.timer_fd_min_free)
        (max' ∙ max) x.least in
    (
      q,
      run,
      r,
      back,
      same,
      omega (
        arith,
        min_free_unique least v.least same some_r (omega arith),
        min_free_unique v.least least (λ m. sym (same m)) (omega arith) some_r,
      ),
    )
  where
    restored :
        (r q p : List ℕ) (n m : ℕ)
        → taken r m ≡ (if n == m then false else taken q m)
        → taken q m ≡ (if n == m then true else taken p m)
        → taken p n ≡ false
        → taken r m ≡ taken p m
    restored r q p n m back out was_free = elim (Bool-cases (n == m)) [
      | inl one ↦ back ∙ rw one (sym (rw (eqb→eq n m one) at was_free))
      | inr other ↦ back ∙ rw other (out ∙ rw other refl)
    ]

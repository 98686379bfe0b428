-- ===== src/MinHeap/SiftUp.antt =====
-- The loop of `ti_push` and `repush`: it reorders the array and restores the heap order.
use mathlib.Core.List.Perm
use native.Mathlib.Decide.{dec_le}
use simple_timer.Prelude.{
  ℕ, zero, suc, ◌<◌, ◌≤◌, ◌≡◌, refl, inl, inr, List, Perm, arith, ◌==◌, Bool-cases, eqb→eq, ne→eqb,
}
use simple_timer.Prelude.Arrays.{length, get_or, set, get_or-set, length-set, set-set-perm}
use simple_timer.Machine.Ends
use simple_timer.Machine.Ends.{Ends, ends}
use simple_timer.Api.{Ptr, null, less}
use simple_timer.Api.Order.{◌≤ᵗ◌, le_of_less}
use simple_timer.MinHeap.State.{live, World}
use simple_timer.MinHeap.Queue.{parent, sift_up}
use simple_timer.MinHeap.Memory.{
  with_queue, Timers, timer_at, keys, IsTimer, load_timer-ok, load_slot-ok, store_slot-ok, keys-set,
}
use simple_timer.MinHeap.Heap.{IsHeap, put, UpInv, UpInv-rise, IsHeap-root, IsHeap-settled}

-- The array `q'` has the entries of `q` and `t`, which was put into slot `s`, in heap order.
pub record Sifted (n : ℕ) (h : Timers) (q : List Ptr) (s : ℕ) (t : Ptr) (q' : List Ptr)
    : Type 0 where
  pub same : Perm q' (set q s t)
  pub heap : IsHeap n (keys h q')
  pub above : (j : ℕ) → s < j → get_or null q' j ≡ get_or null q j
  pub filled : (j : ℕ) → j ≤ s → IsTimer h (get_or null q' j)

-- The world after a reordering of the array.
abbrev pub Result : ℕ → World → List Ptr → ℕ → Ptr → Unit {0} → World → Type 0
Result n w q s t _ w' = (q' : List Ptr) × (w' ≡ with_queue w q') × Sifted n w.timers q s t q'

-- What the loop needs at slot `s`.
pub record Ready (n : ℕ) (h : Timers) (q : List Ptr) (s : ℕ) (t : Ptr) : Type 0 where
  pub inside : s < length q
  pub below : s < n
  pub timer : IsTimer h t
  pub others : (j : ℕ) → j < s → IsTimer h (get_or null q j)
  pub order : UpInv n (keys h q) (timer_at h t).expiretime s

module _ {n : ℕ} {h : Timers} {q : List Ptr} {s : ℕ} {t : Ptr} (r : Ready n h q s t) where
  -- The end of the loop.
  Sifted-settle :
      IsHeap n (put (keys h q) s (timer_at h t).expiretime) → Sifted n h q s t (set q s t)
  Sifted-settle heap = record {
    same = Perm.rfl;
    heap = rw (keys-set h q s t r.inside) heap;
    above = λ j p. ground (arith, get_or-set null q s j t r.inside);
    filled = λ j p. rw (get_or-set null q s j t r.inside) (elim (Bool-cases (s == j)) [
      | inl same ↦ rw same r.timer
      | inr other ↦ rw other (r.others j (ground arith))
    ]);
  }

  module _ (pos : 0 < s) where
    -- A round that moves the parent down is ready for the next one.
    Ready-rise :
        (timer_at h t).expiretime ≤ᵗ keys h q (parent s)
        → Ready n h (set q s (get_or null q (parent s))) (parent s) t
    Ready-rise high =
        let temp = get_or null q (parent s) in
        record {
          inside = omega (arith, r.inside, length-set q s temp);
          below = omega (arith, r.below);
          timer = r.timer;
          others = λ j p.
              rw (get_or-set null q s j temp r.inside, ne→eqb s j (omega arith))
                (r.others j (omega arith));
          order = rw (keys-set h q s temp r.inside) (UpInv-rise r.order pos r.below high);
        }

    Sifted-rise :
        {q' : List Ptr}
        → Sifted n h (set q s (get_or null q (parent s))) (parent s) t q'
        → Sifted n h q s t q'
    Sifted-rise {q'} v =
        let temp = get_or null q (parent s) in
        record {
          same =
              Perm.trans v.same (
                set-set-perm null q s (parent s) t r.inside (omega (arith, r.inside))
                  (omega arith));
          heap = v.heap;
          above = λ j p. ground (arith, v.above j, get_or-set null q s j temp r.inside);
          filled = λ j p. elim (dec_le j (parent s)) [
            | yes low ↦ v.filled j low
            | no high ↦
                rw (v.above j (omega arith), get_or-set null q s j temp r.inside)
                  (elim (Bool-cases (s == j)) [
                    | inl same ↦ rw same (r.others (parent s) (omega arith))
                    | inr other ↦ rw other (r.others j (ground arith))
                  ])
          ];
        }

-- With more fuel than the slot's index, and an array that is in heap order but for the edge above
-- the slot, the loop of `ti_push` ends, touches no timer, and leaves the array with the new entry,
-- reordered up to the slot, in heap order.
pub sift_up-Sifted :
    {n : ℕ} (k s : ℕ) {t : Ptr} {w : World} {q : List Ptr}
    → s < k
    → w.man.queue ≡ live q
    → Ready n w.timers q s t
    → Ends (Result n w q s t) (sift_up k t s w)
unfolding sift_up
sift_up-Sifted zero s fuel e r = absurd (omega arith)
sift_up-Sifted (suc k) s {t} {w} {q} fuel e r = elim (Bool-cases (s == 0)) [
  | inl root ↦
      rw (root, store_slot-ok {w = w} e s r.inside t)
        (ends (set q s t, refl, Sifted-settle r (IsHeap-root r.order (eqb→eq s 0 root))))
  | inr inner ↦
      let pos : 0 < s = ground arith in
      let temp = get_or null q (parent s) in
      let old = r.others (parent s) (omega arith) in
      rw
        (
          inner,
          load_slot-ok {w = w} e (parent s) (omega (arith, r.inside)),
          load_timer-ok {w = w} old,
          load_timer-ok {w = w} r.timer,
        )
        (elim (Bool-cases
          (less (timer_at w.timers temp).expiretime (timer_at w.timers t).expiretime)) [
            | inl low ↦
                rw (low, store_slot-ok {w = w} e s r.inside t)
                  (ends (
                    set q s t,
                    refl,
                    Sifted-settle r (IsHeap-settled r.order pos (le_of_less _ _ low)),
                  ))
            | inr high ↦
                rw (high, store_slot-ok {w = w} e s r.inside temp)
                  (Ends.mono
                    (sift_up-Sifted k (parent s) {w = with_queue w (set q s temp)} (omega arith)
                      refl (Ready-rise r pos high))
                    λ _ w' (q', same, v). (q', same, Sifted-rise r pos v))
          ])
]

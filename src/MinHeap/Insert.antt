-- ===== src/MinHeap/Insert.antt =====
-- The part of `ti_push` under both locks: it adds one timer to a heap.
use simple_timer.Prelude.{
  ℕ, suc, ◌+◌, ◌<◌, ◌≡◌, ◌≢◌, refl, ◌∙◌, inl, inr, true, false, none, List, arith, ◌==◌, Bool-cases,
  eqb→eq, lt→leb,
}
use simple_timer.Prelude.Arrays.{length, get_or, count, count-set, count-perm}
use simple_timer.Machine.Locks.{RwLock}
use simple_timer.Machine.Ends
use simple_timer.Machine.Ends.{Ends, ends}
use simple_timer.Api.{Ptr, null, timer_true}
use simple_timer.MinHeap.State.{live, World, unlock, lock_queue, unlock_queue}
use simple_timer.MinHeap.Queue.{parent, push_locked}
use simple_timer.MinHeap.Memory.{Timers, IsTimer, keys, timer_at}
use simple_timer.MinHeap.Heap.{UpInv-start}
use simple_timer.MinHeap.SiftUp.{Sifted, Ready, sift_up-Sifted}
use simple_timer.MinHeap.Valid.{IsQueue}

-- A heap of timers stays one while its own blocks are kept.
pub IsQueue-frame :
    {n : ℕ} {h g : Timers} {q : List Ptr}
    → IsQueue n h q
    → ((j : ℕ) → j < n → g (get_or null q j) ≡ h (get_or null q j))
    → IsQueue n g q
IsQueue-frame {n} {h} {g} {q} v kept = record {
  filled = λ j p. record {
    ne_null = (v.filled j p).ne_null;
    holds = rw (kept j p) (v.filled j p).holds;
  };
  clear = v.clear;
  distinct = v.distinct;
  heap = λ c p r. cc (kept c r, kept (parent c) (omega arith), v.heap c p r);
}

-- A block that is not live is in no slot of a heap.
pub slot-ne-fresh :
    {n : ℕ} {h : Timers} {q : List Ptr} {p : Ptr}
    → IsQueue n h q
    → h p ≡ none
    → (j : ℕ) → j < n
    → (get_or null q j == p) ≡ false
slot-ne-fresh {q} {p} v fresh j below = elim (Bool-cases (get_or null q j == p)) [
  | inr other ↦ other
  | inl same ↦ absurd (ground (arith, eqb→eq (get_or null q j) p same, (v.filled j below).holds))
]

-- With the new timer in slot `n` the loop is ready.
pub Ready-start :
    {n : ℕ} {h : Timers} {q : List Ptr} {t : Ptr}
    → IsQueue n h q
    → IsTimer h t
    → n < length q
    → Ready (suc n) h q n t
Ready-start {n} {h} {q} {t} v new inside = record {
  inside = inside;
  below = omega arith;
  timer = new;
  others = v.filled;
  order = UpInv-start n (keys h q) (timer_at h t).expiretime v.heap;
}

-- What the loop leaves is a heap of one timer more.
pub IsQueue-Sifted :
    {n : ℕ} {h : Timers} {q q' : List Ptr} {t : Ptr}
    → IsQueue n h q
    → t ≢ null
    → count t q ≡ 0
    → n < length q
    → Sifted (suc n) h q n t q'
    → IsQueue (suc n) h q'
IsQueue-Sifted {n} {q} {q'} {t} v ne absent inside s = record {
  filled = λ j p. s.filled j (omega arith);
  clear = λ j p. s.above j p ∙ v.clear j (omega arith);
  distinct = λ p r.
      ground (arith, count-perm p s.same, count-set p q n t inside, v.distinct p r, v.clear n);
  heap = s.heap;
}

-- The world after a successful `ti_push` that found the world `w`, in terms of the final array.
abbrev pub pushed : World → Ptr → Timers → List Ptr → World
pushed w t h q = record w {
  man = record (w.man) {
    queue = live q;
    cur_timer_num = w.man.cur_timer_num + 1;
    lock = RwLock.free;
    mh_lock = false;
  };
  timers = h;
}

-- Under both locks the timer goes into the array, and both are released.
pub push_locked-room :
    {w : World} {q : List Ptr} {t : Ptr}
    → w.man.lock ≡ RwLock.shared 0
    → w.man.mh_lock ≡ false
    → w.man.queue ≡ live q
    → w.man.cur_timer_num < w.man.max_timer_num
    → length q ≡ w.man.max_timer_num
    → IsQueue w.man.cur_timer_num w.timers q
    → IsTimer w.timers t
    → Ends
        (λ b w'.
          (b ≡ timer_true)
          × (q' : List Ptr) × (w' ≡ pushed w t w.timers q')
          × Sifted (suc w.man.cur_timer_num) w.timers q w.man.cur_timer_num t q')
        (push_locked t w)
unfolding push_locked lock_queue unlock_queue unlock
push_locked-room {w} {q} {t} locked open_mutex array room size v new =
    let w1 : World = record w {
      man = record (w.man) { cur_timer_num = w.man.cur_timer_num + 1; mh_lock = true };
    } in
    let n = w.man.cur_timer_num in
    rw (open_mutex, lt→leb _ _ room)
      (Ends.bind
        (sift_up-Sifted (n + 1) n {w = w1} (omega arith) array
          (Ready-start v new (omega (arith, size))))
        λ _ w' (q', e, s). rw (e, locked) (ends (refl, q', refl, s)))

-- ===== src/MinHeap/Valid.antt =====
-- What holds of an initialised manager between calls.
use native.Mathlib.Decide.{dec_lt}
use simple_timer.Prelude.{sym, ◌∙◌, ℕ, ◌<◌, ◌≤◌, ◌≡◌, ◌≢◌, false, none, List, arith}
use simple_timer.Prelude.Arrays.{length, get_or, count, index-count}
use simple_timer.Machine.Locks.{RwLock}
use simple_timer.Api.{Ptr, null}
use simple_timer.MinHeap.State.{live, Manager, World}
use simple_timer.MinHeap.Memory.{Timers, keys, IsTimer}
use simple_timer.MinHeap.Heap.{IsHeap}

-- The first `n` slots hold distinct live timers in heap order, and the others NULL.
pub record IsQueue (n : ℕ) (h : Timers) (q : List Ptr) : Type 0 where
  pub filled : (j : ℕ) → j < n → IsTimer h (get_or null q j)
  pub clear : (j : ℕ) → n ≤ j → get_or null q j ≡ null
  pub distinct : (p : Ptr) → p ≢ null → count p q ≤ 1
  pub heap : IsHeap n (keys h q)

pub record IsValid (w : World) (q : List Ptr) : Type 0 where
  pub array : w.man.queue ≡ live q
  pub size : length q ≡ w.man.max_timer_num
  pub room : w.man.cur_timer_num ≤ w.man.max_timer_num
  pub entries : IsQueue w.man.cur_timer_num w.timers q

-- No lock is held.
pub record IsIdle (m : Manager) : Type 0 where
  pub lock_free : m.lock ≡ RwLock.free
  pub mutex_free : m.mh_lock ≡ false

-- A block that is not live is not in the array.
pub count-fresh :
    {n : ℕ} {h : Timers} {q : List Ptr} (p : Ptr)
    → IsQueue n h q
    → p ≢ null
    → h p ≡ none
    → count p q ≡ 0
count-fresh {n} {h} {q} p v ne fresh = elim (dec_lt 0 (count p q)) [
  | no absent ↦ omega arith
  | yes present ↦
      let (j, inside, at) = index-count p q present in
      elim (dec_lt j n) [
        | no outside ↦ absurd (ne (sym at ∙ v.clear j (omega arith)))
        | yes below ↦ absurd (ground (arith, (v.filled j below).holds))
      ]
]

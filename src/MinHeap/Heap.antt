-- ===== src/MinHeap/Heap.antt =====
-- The order that the array keeps, on the expiry times alone, and what one round of the loop of
-- `ti_push` does to it. `key c` is the time of the timer in slot `c`.
use simple_timer.Prelude.{ℕ, suc, ◌<◌, ◌≡◌, ◌≢◌, arith, ◌==◌, if◌then◌else◌}
use simple_timer.Api.{Timespec}
use simple_timer.Api.Order.{◌≤ᵗ◌, le_trans}
use simple_timer.MinHeap.Queue.{parent}

-- No timer among the first `n` expires before the one above it.
abbrev pub IsHeap : ℕ → (ℕ → Timespec) → Type 0
IsHeap n key = (c : ℕ) → 0 < c → c < n → key (parent c) ≤ᵗ key c

-- The keys with `e` put into slot `s`.
abbrev pub put : (ℕ → Timespec) → ℕ → Timespec → ℕ → Timespec
put key s e c = if s == c then e else key c

-- With `e` in slot `s`, only the edge above `s` may be out of order.
pub record UpInv (n : ℕ) (key : ℕ → Timespec) (e : Timespec) (s : ℕ) : Type 0 where
  pub edges : (c : ℕ) → 0 < c → c < n → c ≢ s → put key s e (parent c) ≤ᵗ put key s e c
  pub bridged : (c : ℕ) → 0 < c → c < n → 0 < s → parent c ≡ s → key (parent s) ≤ᵗ key c

module _ {n : ℕ} {key : ℕ → Timespec} {e : Timespec} {s : ℕ} (v : UpInv n key e s) where
  -- The round that moves the parent down.
  pub UpInv-rise :
      0 < s → s < n → e ≤ᵗ key (parent s) → UpInv n (put key s (key (parent s))) e (parent s)
  UpInv-rise pos below high = record {
    edges = λ c p q r. grind (arith, v.edges c, v.bridged c, le_trans);
    bridged = λ c p q r t. grind (arith, v.edges c, v.edges (parent s), le_trans);
  }

  pub IsHeap-root : s ≡ 0 → IsHeap n (put key s e)
  IsHeap-root root c p q = v.edges c p q (ground arith)

  pub IsHeap-settled : 0 < s → key (parent s) ≤ᵗ e → IsHeap n (put key s e)
  IsHeap-settled pos low c p q = ground (arith, v.edges c)

-- A heap of `n` timers, with `e` in the next slot.
pub UpInv-start : (n : ℕ) (key : ℕ → Timespec) (e : Timespec) → IsHeap n key → UpInv (suc n) key e n
UpInv-start n key e h = record {
  edges = λ c p q r. ground (arith, h c);
  bridged = λ c p q r t. absurd (omega arith);
}

-- ===== src/Api/Order.antt =====
-- `less`, `great` and `gte` of src/timer.h are one total order.
use simple_timer.Prelude.{◌≡◌, true, false, not, ◌+◌, ◌*◌, ◌<◌, ◌^◌, arith, ◌↔◌}
use simple_timer.Api.{Timespec, less, great, gte}

infix 50 ◌≤ᵗ◌
-- `a` is not later than `b`.
abbrev pub ◌≤ᵗ◌ : Timespec → Timespec → Type 0
a ≤ᵗ b = less b a ≡ false

pub le_refl : (a : Timespec) → a ≤ᵗ a
unfolding less
le_refl a = ground arith

pub le_trans : (a b c : Timespec) → a ≤ᵗ b → b ≤ᵗ c → a ≤ᵗ c
unfolding less
le_trans a b c p q = ground arith

pub le_of_less : (a b : Timespec) → less a b ≡ true → a ≤ᵗ b
unfolding less
le_of_less a b p = ground arith

-- For times whose nanoseconds are below 10^9, the macros compare the number of nanoseconds since
-- the epoch: `less` is <, `great` is the converse, and `gte` is the negation of `less`.
pub less_iff_nanoseconds :
    (a b : Timespec)
    → a.tv_nsec < 10 ^ 9
    → b.tv_nsec < 10 ^ 9
    → ((less a b ≡ true) ↔ (a.tv_sec * 10 ^ 9 + a.tv_nsec < b.tv_sec * 10 ^ 9 + b.tv_nsec))
      × (great a b ≡ less b a)
      × (gte a b ≡ not (less a b))
unfolding less great gte
less_iff_nanoseconds a b ha hb = ((ground arith, ground arith), ground arith, ground arith)

pub gte-less : (a b : Timespec) → less a b ≡ true → gte a b ≡ false
unfolding less gte
gte-less a b h = ground arith

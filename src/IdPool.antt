-- ===== src/IdPool.antt =====
-- The timer ids of src/timer.c: a bitmap with a bit for each id, the highest bit of a byte first, and
-- the least free id. The macros `bitmap_bytes`, `set_bit` and `unset_bit`, and the functions
-- `find_min_id`, `timer_id_pop` and `timer_id_push`.
mod Tests
pub mod Bits
pub mod Find
pub mod Writes
pub mod Turnover
pub mod Exhaustion
use Prim.Native.Nat.{bit_and, bit_or}
use simple_timer.Prelude.{
  ℕ, zero, suc, ◌+◌, ◌-◌, ◌*◌, ◌/◌, ◌%◌, ◌^◌, Option, none, some, List, ◌==◌, if◌then◌else◌, ltb,
}
use simple_timer.Prelude.Arrays.{get_elem?, set}
use simple_timer.Machine.{Run, Cmd, out_of_fuel, pure, deref, ◌>>=◌, ◌>>◌}

-- The fields of `struct timer_s_internal` that the ids live in.
pub record Pool : Type 0 where
  pub timer_fd_bitmap : List ℕ
  pub timer_fd_min_free : ℕ
  pub timer_max_num : ℕ

-- `id - 1` for an `unsigned int`: 0 wraps round.
unfoldable pub before : ℕ → ℕ
before id = (id + 2 ^ 32 - 1) % 2 ^ 32

unfoldable pub bitmap_bytes : ℕ → ℕ
unfolding before
bitmap_bytes cnt = before cnt / 8 + 1

-- `128U >> ((id - 1) & 7)`.
abbrev pub mask : ℕ → ℕ
mask id = 128 / 2 ^ (before id % 8)

unfoldable pub set_bit : ℕ → Cmd Pool (Unit {0})
unfolding before
set_bit id p = elim (get_elem? p.timer_fd_bitmap (before id / 8)) [
  | none ↦ Run.fault
  | some b ↦
      Run.ok tt
        (record p { timer_fd_bitmap = set p.timer_fd_bitmap (before id / 8) (bit_or b (mask id)) })
]

-- `~` of the mask, cut off to a byte by the store.
unfoldable pub unset_bit : ℕ → Cmd Pool (Unit {0})
unfolding before
unset_bit id p = elim (get_elem? p.timer_fd_bitmap (before id / 8)) [
  | none ↦ Run.fault
  | some b ↦ Run.ok tt (record p {
    timer_fd_bitmap = set p.timer_fd_bitmap (before id / 8) (bit_and b (255 - mask id));
  })
]

-- The inner loop: `base` starts at 0x80 and `cnt` at 0. A byte has eight bits, hence the fuel 8.
unfoldable pub find_bit : (fuel b base cnt : ℕ) → Option ℕ
find_bit zero b base cnt = none
find_bit (suc k) b base cnt =
    let rest = find_bit k b (base / 2) (cnt + 1) in if bit_and b base == 0 then some cnt else rest

-- The outer loop from byte `i` on, of which `rounds` are left.
unfoldable pub find_byte : (rounds i : ℕ) → List ℕ → Cmd Pool ℕ
unfolding find_bit
find_byte zero i tmp = pure 0
find_byte (suc rounds) i tmp = do
  b ← deref (get_elem? tmp i)
  if b == 255 then find_byte rounds (i + 1) tmp else elim (find_bit 8 b 0x80 0) [
    | none ↦ λ _. out_of_fuel
    | some cnt ↦ pure (i * 8 + cnt + 1)
  ]

-- For a positive `len`, at which the signed and the unsigned `bitmap_bytes` agree.
unfoldable pub find_min_id : List ℕ → ℕ → Cmd Pool ℕ
unfolding find_byte bitmap_bytes
find_min_id tmp len = find_byte (bitmap_bytes len) 0 tmp

unfoldable pub timer_id_pop : Cmd Pool ℕ
unfolding set_bit find_min_id
timer_id_pop = λ p.
    (do
      set_bit p.timer_fd_min_free
      q ← λ q. Run.ok q q
      id ← find_min_id q.timer_fd_bitmap q.timer_max_num
      (λ r. Run.ok tt (record r { timer_fd_min_free = id }))
      pure p.timer_fd_min_free)
      p

unfoldable pub timer_id_push : ℕ → Cmd Pool (Unit {0})
unfolding unset_bit
timer_id_push id = do
  unset_bit id
  λ p. Run.ok tt (if ltb id p.timer_fd_min_free then record p { timer_fd_min_free = id } else p)

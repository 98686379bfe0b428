-- ===== src/Machine.antt =====
-- The C machine that the modules share: how a run ends, commands over a state, and the locks of
-- pthread as a thread sees them that holds none when it takes one.
pub mod Ends
pub mod Locks
use simple_timer.Prelude.{ℕ, Bool, true, false, Option, none, some}

-- `fault` is undefined behaviour: a bad pointer, an index out of range, a lock released that is not
-- held. `blocked` is a wait for a lock that another thread holds and keeps. `out_of_fuel` is a loop
-- that has not ended.
pub data Run (S A : Type 0) : Type 0 where
  ok : A → S → Run S A
  fault : Run S A
  blocked : Run S A
  out_of_fuel : Run S A

abbrev pub Cmd : Type 0 → Type 0 → Type 0
Cmd S A = S → Run S A

module _ {S A B : Type 0} where
  abbrev pub and_then : Run S A → (A → Cmd S B) → Run S B
  and_then (ok a s) k = k a s
  and_then fault k = fault
  and_then blocked k = blocked
  and_then out_of_fuel k = out_of_fuel

  infixl 5 ◌>>=◌ ◌>>◌
  abbrev pub ◌>>=◌ : Cmd S A → (A → Cmd S B) → Cmd S B
  m >>= k = λ s. and_then (m s) k

  abbrev pub ◌>>◌ : Cmd S A → Cmd S B → Cmd S B
  m >> n = m >>= λ _. n

module _ {S A : Type 0} where
  abbrev pub pure : A → Cmd S A
  pure a s = ok a s

  -- The value of an `Option`, and undefined behaviour without one.
  abbrev pub deref : Option A → Cmd S A
  deref none s = fault
  deref (some a) s = ok a s

  -- A run on a part of a state, as a run on the whole: `back` puts the part back.
  abbrev pub resume : {T : Type 0} → Run S A → (S → T) → Run T A
  resume (ok a s) back = ok a (back s)
  resume fault back = fault
  resume blocked back = blocked
  resume out_of_fuel back = out_of_fuel

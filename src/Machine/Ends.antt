-- ===== src/Machine/Ends.antt =====
-- Total correctness of a run: it ends normally, with a result and a state that meet a condition.
use simple_timer.Prelude.{◌≡◌, ◌≢◌, refl, Bool, true, false, if◌then◌else◌}
use simple_timer.Machine.{Run, ok, fault, blocked, out_of_fuel, Cmd, and_then}

pub data Ends {S A : Type 0} (P : A → S → Type 0) : Run S A → Type 0 where
  ends : {a : A} {s : S} → P a s → Ends P (ok a s)

module _ {S A : Type 0} {P : A → S → Type 0} where
  -- A run that ends well, followed by a command that ends well from there.
  pub bind :
      {B : Type 0} {Q : B → S → Type 0} {r : Run S A} {k : A → Cmd S B}
      → Ends P r
      → ((a : A) (s : S) → P a s → Ends Q (k a s))
      → Ends Q (and_then r k)
  bind (ends p) next = next _ _ p

  pub mono :
      {Q : A → S → Type 0} {r : Run S A} → Ends P r → ((a : A) (s : S) → P a s → Q a s) → Ends Q r
  mono (ends p) weaken = ends (weaken _ _ p)

  pub branch :
      (b : Bool) (x y : Cmd S A) (s : S)
      → (b ≡ true → Ends P (x s))
      → (b ≡ false → Ends P (y s))
      → Ends P ((if b then x else y) s)
  branch true x y s p q = p refl
  branch false x y s p q = q refl

  pub inv : {r : Run S A} → Ends P r → (a : A) × (s : S) × (r ≡ ok a s) × P a s
  inv (ends p) = (_, _, refl, p)

-- The parts of a command that ends normally.
pub and_then-eq-ok :
    {S A B : Type 0} (r : Run S A) (k : A → Cmd S B) {b : B} {s' : S}
    → and_then r k ≡ ok b s'
    → (a : A) × (s : S) × (r ≡ ok a s) × (k a s ≡ ok b s')
and_then-eq-ok (ok a s) k e = (a, s, refl, e)
and_then-eq-ok fault k e = cc
and_then-eq-ok blocked k e = cc
and_then-eq-ok out_of_fuel k e = cc

pub fault-ne-ok : {S A : Type 0} {r : Run S A} {a : A} {s : S} → r ≡ fault → r ≢ ok a s
fault-ne-ok p q = cc

-- ===== src/Prelude/Checked.antt =====
-- Code that runs under `assert`: it returns a value, or the process aborts. A loop on fuel may
-- also run out of it.
use mathlib.Core.Bool.{Bool, true, false}

pub data Checked {ℓ} (A : Type ℓ) : Type ℓ where
  returned : A → Checked A
  aborted : Checked A
  out_of_fuel : Checked A

infixl 5 ◌>>=◌ ◌>>◌
abbrev pub ◌>>=◌ {ℓ κ} : {A : Type ℓ} {B : Type κ} → Checked A → (A → Checked B) → Checked B
returned a >>= f = f a
aborted >>= f = aborted
out_of_fuel >>= f = out_of_fuel

abbrev pub ◌>>◌ {ℓ} : {B : Type ℓ} → Checked (Unit {0}) → Checked B → Checked B
m >> k = m >>= λ _. k

-- `assert` of assert.h; the Makefile does not define NDEBUG.
abbrev pub assert : Bool → Checked (Unit {0})
assert true = returned tt
assert false = aborted

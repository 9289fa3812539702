-- ===== src/Prelude/Inversion.antt =====
-- What a run that returns tells of its parts.
use weaver_dsb.Prelude.{◌≡◌, refl}
use weaver_dsb.Prelude.Checked.{Checked, returned, aborted, out_of_fuel, ◌>>=◌}

pub returned_inj {ℓ} : {A : Type ℓ} {a b : A} → returned a ≡ returned b → a ≡ b
returned_inj e = cc e

pub bind_inv {ℓ κ} :
    {A : Type ℓ} {B : Type κ} (m : Checked A) (k : A → Checked B) (b : B)
    → (m >>= k) ≡ returned b
    → (a : A) × (m ≡ returned a) × (k a ≡ returned b)
bind_inv (returned a) k b e = (a, refl, e)
bind_inv aborted k b e = absurd (cc e)
bind_inv out_of_fuel k b e = absurd (cc e)

-- ===== src/Units/Laws.antt =====
-- scan_units of wrk2/src/units.c multiplies by the power of the scale that the unit stands for.
use native.Mathlib.Nat.{pow-suc, pow-zero, div-add-mod'}
use weaver_dsb.Prelude.{
  ℕ, suc, ◌+◌, ◌*◌, ◌%◌, ◌^◌, ◌≡◌, refl, ap, ◌∙◌, Option, none, some, List, [], ◌∷◌, arith, inl,
  inr,
}
use weaver_dsb.Prelude.Tests.{if◌then◌else◌, Bool-cases}
use weaver_dsb.Prelude.Int.{mul64}
use weaver_dsb.Units.{
  Units, same_unit, Scanned, nothing, number, number_unit, scan, product, from_scanned, find_unit,
  scan_units,
}

-- the place of a unit in a list, from `n` on
unfoldable pub unit_place : List ℕ → List (List ℕ) → ℕ → Option ℕ
unit_place unit [] n = none
unit_place unit (u ∷ us) n =
    let rest = unit_place unit us (n + 1) in if same_unit unit u then some n else rest

-- the exponent of the scale: 0 for the base, and the place from 1 on of any other unit
unfoldable pub exponent : Units → List ℕ → Option ℕ
exponent m unit = if same_unit unit m.base then some 0 else unit_place unit m.units 1

abbrev pub scaled : ℕ → ℕ → Option ℕ → Option ℕ
scaled base step none = none
scaled base step (some k) = some (base * step ^ k % 2 ^ 64)

mul64-mod : (a b : ℕ) → a % 2 ^ 64 * b % 2 ^ 64 ≡ a * b % 2 ^ 64
mul64-mod a b = omega (arith, ap (λ (k : ℕ). k * b) (div-add-mod' a (2 ^ 64)))

mod-mul64 : (a b : ℕ) → b * (a % 2 ^ 64) % 2 ^ 64 ≡ b * a % 2 ^ 64
mod-mul64 a b = omega (arith, ap (λ (k : ℕ). b * k) (div-add-mod' a (2 ^ 64)))

times_step : (step n : ℕ) → mul64 (step ^ n % 2 ^ 64) step ≡ step ^ suc n % 2 ^ 64
times_step step n =
    mul64-mod (step ^ n) step ∙ ap (λ (k : ℕ). k % 2 ^ 64) (omega (arith, pow-suc step n))

abbrev powers : ℕ → Option ℕ → Option ℕ
powers step none = none
powers step (some k) = some (step ^ k % 2 ^ 64)

-- The loop multiplies by the scale once for each unit that it passes, and for the one it finds.
find_unit_lem :
    (step : ℕ) (unit : List ℕ) (us : List (List ℕ)) (n : ℕ)
    → find_unit step unit us (step ^ n % 2 ^ 64) ≡ powers step (unit_place unit us (n + 1))
unfolding find_unit unit_place
find_unit_lem step unit [] n = refl
find_unit_lem step unit (u ∷ us) n = elim (Bool-cases (same_unit unit u)) [
  | inl found ↦
      rw found (ap some (times_step step n ∙ ap (λ (k : ℕ). step ^ k % 2 ^ 64) (omega arith)))
  | inr other ↦ rw other (
      ap (find_unit step unit us) (times_step step n)
      ∙ find_unit_lem step unit us (suc n)
      ∙ ap (λ (k : ℕ). powers step (unit_place unit us (k + 1))) (omega arith))
]

-- What scan_units gives for what `sscanf` finds: nothing for a text without a number or with a
-- unit that is not in the table, and otherwise the number times the power of the scale that the
-- unit stands for, modulo 2^64.
abbrev pub scanned_as : Units → Scanned → Option ℕ
scanned_as m nothing = none
scanned_as m (number base) = some (base % 2 ^ 64)
scanned_as m (number_unit base unit) = scaled base m.scale (exponent m unit)

product-powers :
    (base step : ℕ) (place : Option ℕ) → product base (powers step place) ≡ scaled base step place
product-powers base step none = refl
product-powers base step (some k) = ap some (mod-mul64 (step ^ k) base)

from_scanned_lem : (m : Units) (x : Scanned) → from_scanned m x ≡ scanned_as m x
unfolding from_scanned exponent
from_scanned_lem m nothing = refl
from_scanned_lem m (number base) = ap some (omega arith)
from_scanned_lem m (number_unit base unit) = elim (Bool-cases (same_unit unit m.base)) [
  | inl found ↦ rw found (ap some (omega (arith, ap (λ (k : ℕ). base * k) (pow-zero m.scale))))
  | inr other ↦ rw other (
      ap (product base) (
        ap (find_unit m.scale unit m.units) (omega (arith, pow-zero m.scale))
        ∙ find_unit_lem m.scale unit m.units 0
        ∙ ap (λ (k : ℕ). powers m.scale (unit_place unit m.units k)) (omega arith))
      ∙ product-powers base m.scale (unit_place unit m.units 1))
]

-- scan_units gives nothing for a text without a number, or with a unit that is not in the table,
-- and otherwise the number times the power of the scale that the unit stands for, modulo 2^64.
pub scan_units_lem : (s : List ℕ) (m : Units) → scan_units s m ≡ scanned_as m (scan s)
unfolding scan_units
scan_units_lem s m = from_scanned_lem m (scan s)

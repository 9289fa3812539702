-- ===== src/Units.antt =====
-- wrk2/src/units.c: scan_units, with scan_metric and scan_time. A string is the list of its
-- character codes.
pub mod Laws
use weaver_dsb.Prelude.{
  ℕ, zero, suc, ◌+◌, ◌-◌, ◌*◌, ◌%◌, ◌^◌, min, Bool, true, false, ◌&&◌, ◌||◌, Option, none, some,
  List, [], ◌∷◌,
}
use weaver_dsb.Prelude.Tests.{ltb, leb, ◌==◌, if◌then◌else◌}
use weaver_dsb.Prelude.Int.{mul64, sub64}

-- `units`
pub record Units : Type 0 where
  pub scale : ℕ
  pub base : List ℕ
  pub units : List (List ℕ)

-- "s"; "m", "h"
abbrev pub time_units_s : Units
time_units_s = record { scale = 60; base = 115 ∷ []; units = (109 ∷ []) ∷ (104 ∷ []) ∷ [] }

-- ""; "k", "M", "G", "T", "P"
abbrev pub metric_units : Units
metric_units = record {
  scale = 1000;
  base = [];
  units = (107 ∷ []) ∷ (77 ∷ []) ∷ (71 ∷ []) ∷ (84 ∷ []) ∷ (80 ∷ []) ∷ [];
}

abbrev lower : ℕ → ℕ
lower c = if leb 65 c && leb c 90 then c + 32 else c

-- `!strncasecmp(a, b, 3)`, where one of the strings has at most two characters
unfoldable pub same_unit : List ℕ → List ℕ → Bool
same_unit [] [] = true
same_unit [] (d ∷ b) = false
same_unit (c ∷ a) [] = false
same_unit (c ∷ a) (d ∷ b) = let rest = same_unit a b in (lower c == lower d) && rest

abbrev is_space : ℕ → Bool
is_space c = (c == 32) || (leb 9 c && leb c 13)

abbrev is_digit : ℕ → Bool
is_digit c = leb 48 c && leb c 57

skip_spaces : List ℕ → List ℕ
skip_spaces [] = []
skip_spaces (c ∷ s) = let rest = skip_spaces s in if is_space c then rest else c ∷ s

-- the digits from here on: the value read, or `none` if there are none; and what follows
read_digits : Option ℕ → List ℕ → Option ℕ × List ℕ
read_digits seen [] = (seen, [])
read_digits seen (c ∷ s) =
    let value : ℕ = elim seen [ none ↦ c - 48 | some v ↦ v * 10 + (c - 48) ] in
    let rest = read_digits (some value) s in if is_digit c then rest else (seen, c ∷ s)

-- up to two characters that are not spaces
read_word : ℕ → List ℕ → List ℕ
read_word zero s = []
read_word (suc n) [] = []
read_word (suc n) (c ∷ s) = let rest = read_word n s in if is_space c then [] else c ∷ rest

-- the sign, and what follows
read_sign : List ℕ → Bool × List ℕ
read_sign [] = (false, [])
read_sign (c ∷ s) = if c == 45 then (true, s) else (if c == 43 then (false, s) else (false, c ∷ s))

-- The unsigned integer that `sscanf` makes of the digits: the greatest one where they are too
-- large, and the negated one, modulo 2^64, after a minus sign.
abbrev as_uint64 : Bool → ℕ → ℕ
as_uint64 negative v = if leb (2 ^ 64) v then (2 ^ 64 - 1) else (if negative then sub64 0 v else v)

-- what `sscanf(s, "%" SCNu64 "%2s", &base, unit)` finds
pub data Scanned : Type 0 where
  nothing : Scanned
  number : ℕ → Scanned
  number_unit : ℕ → List ℕ → Scanned

word_after : ℕ → List ℕ → Scanned
word_after base [] = number base
word_after base (c ∷ unit) = number_unit base (c ∷ unit)

unfoldable pub scan : List ℕ → Scanned
unfolding skip_spaces read_sign read_digits read_word word_after
scan s =
    let (negative, t) = read_sign (skip_spaces s) in
    let (value, rest) = read_digits none t in
    elim value [
      | none ↦ nothing
      | some v ↦ word_after (as_uint64 negative v) (read_word 2 (skip_spaces rest))
    ]

-- the loop over the units, which multiplies as it goes
unfoldable pub find_unit : ℕ → List ℕ → List (List ℕ) → ℕ → Option ℕ
find_unit step unit [] scale = none
find_unit step unit (u ∷ us) scale =
    let rest = find_unit step unit us (mul64 scale step) in
    if same_unit unit u then some (mul64 scale step) else rest

-- the product, where a unit is found
abbrev pub product : ℕ → Option ℕ → Option ℕ
product base none = none
product base (some scale) = some (mul64 base scale)

-- What is done with the two; `none` is the result -1.
unfoldable pub from_scanned : Units → Scanned → Option ℕ
from_scanned m nothing = none
from_scanned m (number base) = some (mul64 base 1)
from_scanned m (number_unit base unit) =
    if same_unit unit m.base
    then some (mul64 base 1)
    else product base (find_unit m.scale unit m.units 1)

unfoldable pub scan_units : List ℕ → Units → Option ℕ
scan_units s m = from_scanned m (scan s)

abbrev pub scan_metric : List ℕ → Option ℕ
scan_metric s = scan_units s metric_units

abbrev pub scan_time : List ℕ → Option ℕ
scan_time s = scan_units s time_units_s

-- ===== src/Format.antt =====
-- Numbers as text: format_units and the functions that call it, of wrk2/src/units.c, print_units of
-- wrk2/src/wrk.c, and aprintf of wrk2/src/aprintf.c. What printf makes of one number is an
-- argument.
pub mod Laws
use weaver_dsb.Prelude.{
  ℕ, zero, suc, ◌+◌, ◌-◌, Bool, true, false, ◌&&◌, ◌||◌, Option, none, some, List, [], ◌∷◌, ◌++◌,
}
use weaver_dsb.Prelude.Tests.{ltb, leb, if◌then◌else◌}
use weaver_dsb.Prelude.Lists.{length, get_or, take, drop, replicate}
use weaver_dsb.Prelude.Text.{codes}
use weaver_dsb.Prelude.Float.{Float}
use weaver_dsb.Units.{Units, time_units_s, metric_units}

abbrev pub time_units_us : Units
time_units_us = record { scale = 1000; base = codes "us"; units = codes "ms" ∷ codes "s" ∷ [] }

abbrev pub binary_units : Units
binary_units = record {
  scale = 1024;
  base = [];
  units = codes "K" ∷ codes "M" ∷ codes "G" ∷ codes "T" ∷ codes "P" ∷ [];
}

-- aprintf, for the text that vsnprintf makes: `*s` afterwards, and where the new text begins in
-- it, or NULL for both if there is no memory
unfoldable pub aprintf : Bool → Option (List ℕ) → List ℕ → Option (List ℕ) × Option ℕ
aprintf allocated none text = if allocated then (some text, some 0) else (none, none)
aprintf allocated (some before) text =
    if allocated then (some (before ++ text), some (length before)) else (none, none)

module _ (f : Float) where
  open f use {Double, of_ℕ, literal, times, over, less, equal}

  -- a >= b
  abbrev pub reached : Double → Double → Bool
  reached amount limit = less limit amount || equal amount limit

  -- the loop: on to the next unit while another one follows it
  unfoldable pub format_loop : Double → Double → Double → List ℕ → List (List ℕ) → Double × List ℕ
  format_loop scale limit amount unit [] = (amount, unit)
  format_loop scale limit amount unit (u ∷ []) = (amount, unit)
  format_loop scale limit amount unit (u ∷ v ∷ us) =
      let rest = format_loop scale limit (over amount scale) u (v ∷ us) in
      if reached amount limit then rest else (amount, unit)

  abbrev pub limit_of : Units → Double
  limit_of m = times (of_ℕ m.scale) (literal 85 100)

  -- the amount and the unit
  unfoldable pub scaled_units : Double → Units → Double × List ℕ
  scaled_units n m = format_loop (of_ℕ m.scale) (limit_of m) n m.base m.units

  module _ (printed : ℕ → Double → List ℕ) (allocated : Bool) where
    unfoldable pub format_units : Double → Units → ℕ → Option (List ℕ)
    format_units n m p =
        let (amount, unit) = scaled_units n m in
        (aprintf allocated none (printed p amount ++ unit)).0

    abbrev pub format_binary : Double → Option (List ℕ)
    format_binary n = format_units n binary_units 2

    abbrev pub format_metric : Double → Option (List ℕ)
    format_metric n = format_units n metric_units 2

    unfoldable pub format_time_us : Double → Option (List ℕ)
    format_time_us n =
        if reached n (literal 1000000 1)
        then format_units (over n (literal 1000000 1)) time_units_s 2
        else format_units n time_units_us 2

    abbrev pub format_time_s : Double → Option (List ℕ)
    format_time_s n = format_units n time_units_s 0

-- isalpha
abbrev pub is_letter : ℕ → Bool
is_letter c = (leb 65 c && leb c 90) || (leb 97 c && leb c 122)

-- `pad`, which starts as 2
abbrev pub padding : List ℕ → ℕ
padding text =
    (if is_letter (get_or text (length text - 1) 0) then 0 else 1)
    + (if is_letter (get_or text (length text - 2) 0) then 0 else 1)

-- "%*.*s": cut to the width, and filled up with spaces on the left
abbrev pub in_width : ℕ → List ℕ → List ℕ
in_width width text = replicate (width - length text) 32 ++ take width text

-- print_units of a text of two characters at least, and of a width above 2
unfoldable pub print_units : List ℕ → ℕ → List ℕ
print_units text width = in_width (width - padding text) text ++ replicate (padding text) 32

-- ===== src/Tests/Data.antt =====
-- A histogram of two buckets, with the values 0 to 7 in six counters, those from 4 on in pairs; and
-- arithmetic on whole numbers in the place of floating point.
use weaver_dsb.Prelude.{ℕ, ◌+◌, ◌-◌, ◌*◌, ◌/◌, refl, arith, [], ◌∷◌}
use weaver_dsb.Prelude.Tests.{ltb, ◌==◌}
use weaver_dsb.Prelude.Int.{pos, pos_part}
use weaver_dsb.Prelude.Float.{Float}
use weaver_dsb.Hdr.{Histogram}
use weaver_dsb.Hdr.Init.Laws.{IsValid}
use weaver_dsb.Hdr.Add.Alike.{IsAlike}

-- 1 is counted once, and 3 twice.
abbrev pub pairs : Histogram
pairs = record {
  lowest_trackable_value = 1;
  highest_trackable_value = 7;
  unit_magnitude = 0;
  significant_figures = 1;
  sub_bucket_half_count_magnitude = 1;
  sub_bucket_half_count = 2;
  sub_bucket_mask = 3;
  sub_bucket_count = 4;
  bucket_count = 2;
  counts_len = 6;
  total_count = 3;
  counts = 0 ∷ 1 ∷ 0 ∷ 2 ∷ 0 ∷ 0 ∷ [];
}

pub pairs-IsValid : IsValid pairs
pairs-IsValid = record {
  laid_out = record {
    half = refl;
    whole = refl;
    mask = refl;
    some_bucket = omega arith;
    room = refl;
    mask_fits = omega arith;
    shifts_fit = omega arith;
    stored = refl;
  };
  total = refl;
}

pub pairs-IsAlike : IsAlike pairs pairs
pairs-IsAlike = record { unit = refl; magnitude = refl; mask = refl; half = refl; len = refl }

-- whole numbers, with division that rounds down
abbrev pub whole_numbers : Float
whole_numbers = record {
  Double = ℕ;
  of_ℕ = λ n. n;
  of_ℤ = pos_part;
  literal = λ n d. n / d;
  plus = λ a b. a + b;
  minus = λ a b. a - b;
  times = λ a b. a * b;
  over = λ a b. a / b;
  negate = λ a. a;
  sqrt = λ a. a;
  log = λ a. a;
  pow = λ a b. a;
  less = ltb;
  equal = λ a b. a == b;
  truncate = pos;
  round = λ a. a;
}

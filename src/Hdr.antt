-- ===== src/Hdr.antt =====
-- wrk2/src/hdr_histogram.c: the layout of the buckets, and the index arithmetic over it.
pub mod Init
pub mod Record
pub mod Iter
pub mod Query
pub mod Add
pub mod Linear
pub mod Percentiles
pub mod Layout
pub mod Capacity
pub mod Equivalent
pub mod Index
use weaver_dsb.Prelude.{ℕ, suc, ◌+◌, ◌-◌, ◌*◌, ◌/◌, ◌^◌, bit_or, Bool, ◌||◌, List}
use weaver_dsb.Prelude.Tests.{ltb, leb, ◌==◌, if◌then◌else◌}
use weaver_dsb.Prelude.Lists.{get_or}
use weaver_dsb.Prelude.Int.{ℤ, pos, negsuc, ◌+ℤ◌, ◌-ℤ◌, ltb_ℤ, leb_ℤ}
use weaver_dsb.Prelude.Checked.{Checked, returned, aborted, assert, ◌>>=◌, ◌>>◌}
use weaver_dsb.Bits.{bit_length}

-- `struct hdr_histogram`. The configuration is never negative, and a counter counts up from zero.
pub record Histogram : Type 0 where
  pub lowest_trackable_value : ℕ
  pub highest_trackable_value : ℕ
  pub unit_magnitude : ℕ
  pub significant_figures : ℕ
  pub sub_bucket_half_count_magnitude : ℕ
  pub sub_bucket_half_count : ℕ
  pub sub_bucket_mask : ℕ
  pub sub_bucket_count : ℕ
  pub bucket_count : ℕ
  pub counts_len : ℕ
  pub total_count : ℕ
  pub counts : List ℕ

-- the two's complement pattern of an int64_t
abbrev pub bits64 : ℤ → ℕ
bits64 (pos n) = n
bits64 (negsuc n) = 2 ^ 64 - suc n

-- `__builtin_clzll` of a word that is not zero
abbrev pub clzll : ℕ → ℕ
clzll x = 64 - bit_length 64 x

-- The smallest power of two that holds the value, less that of the first bucket.
unfoldable pub get_bucket_index : Histogram → ℤ → ℕ
get_bucket_index h value =
    64
    - clzll (bit_or (bits64 value) h.sub_bucket_mask)
    - h.unit_magnitude
    - (h.sub_bucket_half_count_magnitude + 1)

-- `value >> (bucket_index + unit_magnitude)`: an arithmetic shift rounds down.
abbrev pub get_sub_bucket_index : ℤ → ℕ → ℕ → ℤ
get_sub_bucket_index (pos n) bucket_index unit_magnitude =
    pos (n / 2 ^ (bucket_index + unit_magnitude))
get_sub_bucket_index (negsuc n) bucket_index unit_magnitude =
    negsuc (n / 2 ^ (bucket_index + unit_magnitude))

unfoldable pub counts_index : Histogram → ℕ → ℤ → Checked ℤ
counts_index h bucket_index sub_bucket_index = do
  assert (ltb bucket_index h.bucket_count)
  assert (ltb_ℤ sub_bucket_index (pos h.sub_bucket_count))
  assert (bucket_index == 0 || leb_ℤ (pos h.sub_bucket_half_count) sub_bucket_index)
  let bucket_base_index = pos ((bucket_index + 1) * 2 ^ h.sub_bucket_half_count_magnitude)
  let offset_in_bucket = sub_bucket_index -ℤ pos h.sub_bucket_half_count
  returned (bucket_base_index +ℤ offset_in_bucket)

unfoldable pub counts_index_for : Histogram → ℤ → Checked ℤ
counts_index_for h value =
    let bucket_index = get_bucket_index h value in
    let sub_bucket_index = get_sub_bucket_index value bucket_index h.unit_magnitude in
    counts_index h bucket_index sub_bucket_index

-- `((int64_t) sub_bucket_index) << (bucket_index + unit_magnitude)`
abbrev pub value_from_index : ℕ → ℕ → ℕ → ℕ
value_from_index bucket_index sub_bucket_index unit_magnitude =
    sub_bucket_index * 2 ^ (bucket_index + unit_magnitude)

-- A read of `counts[i]`: the caller's index lies inside the array.
abbrev pub count_at : Histogram → ℤ → ℕ
count_at h (pos i) = get_or h.counts i 0
count_at h (negsuc i) = 0

pub get_count_at_index : Histogram → ℕ → ℤ → Checked ℕ
get_count_at_index h bucket_index sub_bucket_index = do
  i ← counts_index h bucket_index sub_bucket_index
  returned (count_at h i)

-- `1 << n` shifts an `int`. C leaves it undefined from 31 on, for which 0 stands here: no theorem
-- reads it there.
abbrev pub one_shifted : ℕ → ℕ
one_shifted n = if ltb n 31 then 2 ^ n else 0

-- The values from here on are those of the histogram's own entries, which are not negative.
unfoldable pub size_of_equivalent_value_range : Histogram → ℕ → ℕ
size_of_equivalent_value_range h value =
    let bucket_index = get_bucket_index h (pos value) in
    let sub_bucket_index = value / 2 ^ (bucket_index + h.unit_magnitude) in
    let adjusted_bucket =
      if leb h.sub_bucket_count sub_bucket_index then bucket_index + 1 else bucket_index in
    one_shifted (h.unit_magnitude + adjusted_bucket)

unfoldable pub lowest_equivalent_value : Histogram → ℕ → ℕ
lowest_equivalent_value h value =
    let bucket_index = get_bucket_index h (pos value) in
    let sub_bucket_index = value / 2 ^ (bucket_index + h.unit_magnitude) in
    value_from_index bucket_index sub_bucket_index h.unit_magnitude

pub next_non_equivalent_value : Histogram → ℕ → ℕ
next_non_equivalent_value h value =
    lowest_equivalent_value h value + size_of_equivalent_value_range h value

pub highest_equivalent_value : Histogram → ℕ → ℕ
highest_equivalent_value h value = next_non_equivalent_value h value - 1

unfoldable pub median_equivalent_value : Histogram → ℕ → ℕ
median_equivalent_value h value =
    lowest_equivalent_value h value + size_of_equivalent_value_range h value / 2

unfoldable hdr_lowest_equivalent_value : Histogram → ℕ → ℕ
hdr_lowest_equivalent_value h value = lowest_equivalent_value h value

pub hdr_values_are_equivalent : Histogram → ℕ → ℕ → Bool
hdr_values_are_equivalent h a b = lowest_equivalent_value h a == lowest_equivalent_value h b

-- `hdr_count_at_value`
unfoldable pub hdr_count_at_value : Histogram → ℤ → Checked ℕ
hdr_count_at_value h value = do i ← counts_index_for h value; returned (count_at h i)

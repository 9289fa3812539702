-- ===== src/Hdr/Init.antt =====
-- hdr_init, hdr_alloc, hdr_reset and hdr_get_memory_size of wrk2/src/hdr_histogram.c.
pub mod Laws
use weaver_dsb.Prelude.{
  ℕ, zero, suc, ◌+◌, ◌-◌, ◌*◌, ◌/◌, ◌^◌, Bool, true, false, ◌||◌, Option, none, some, arith,
}
use weaver_dsb.Prelude.Tests.{ltb, leb, if◌then◌else◌}
use weaver_dsb.Prelude.Lists.{replicate}
use weaver_dsb.Bits.{bit_length}
use weaver_dsb.Hdr.{Histogram}

power_loop : ℕ → ℕ → ℕ → ℕ
power_loop base zero result = result
power_loop base (suc exp) result = power_loop base exp (result * base)

-- `power(base, exp)`: at the arguments of hdr_init the `int` that holds the result is wide enough.
pub power : ℕ → ℕ → ℕ
unfolding power_loop
power base exp = power_loop base exp 1

-- `ceil(log(x) / log(2))`, as a real number
pub ceil_log2 : ℕ → ℕ
ceil_log2 x = bit_length 64 (x - 1)

-- `floor(log(x) / log(2))`, as a real number, where x is positive
unfoldable pub floor_log2 : ℕ → ℕ
floor_log2 x = bit_length 64 x - 1

-- The loop that counts buckets, on fuel; `none` means that the fuel ran out.
pub buckets_loop : ℕ → ℕ → ℕ → ℕ → Option ℕ
buckets_loop zero trackable_value highest buckets_needed = none
buckets_loop (suc fuel) trackable_value highest buckets_needed =
    let rest = buckets_loop fuel (trackable_value * 2) highest (buckets_needed + 1) in
    if ltb trackable_value highest then rest else some buckets_needed

-- The code's `int`: 0 with the histogram, EINVAL or ENOMEM; or the bucket loop went on past the
-- width of an int64_t.
pub data InitResult : Type 0 where
  created : Histogram → InitResult
  einval enomem overflow : InitResult

-- the magnitude of the half count, for `significant_figures`
unfoldable pub half_magnitude : ℕ → ℕ
unfolding ceil_log2 power
half_magnitude significant_figures =
    let largest = 2 * power 10 significant_figures in
    let sub_bucket_count_magnitude = ceil_log2 largest in
    (if ltb 1 sub_bucket_count_magnitude then sub_bucket_count_magnitude else 1) - 1

-- the histogram as it is filled in, all counts zero
pub fresh : ℕ → ℕ → ℕ → ℕ → ℕ → Histogram
fresh lowest highest significant_figures unit_magnitude bucket_count =
    let magnitude = half_magnitude significant_figures in
    let sub_bucket_count = 2 ^ (magnitude + 1) in
    let counts_len = (bucket_count + 1) * (sub_bucket_count / 2) in
    record {
      lowest_trackable_value = lowest;
      highest_trackable_value = highest;
      unit_magnitude = unit_magnitude;
      significant_figures = significant_figures;
      sub_bucket_half_count_magnitude = magnitude;
      sub_bucket_half_count = sub_bucket_count / 2;
      sub_bucket_mask = (sub_bucket_count - 1) * 2 ^ unit_magnitude;
      sub_bucket_count = sub_bucket_count;
      bucket_count = bucket_count;
      counts_len = counts_len;
      total_count = 0;
      counts = replicate counts_len 0;
    }

-- `malloc` is the environment's: the last argument says whether it gives memory.
pub hdr_init : ℕ → ℕ → ℕ → Bool → InitResult
hdr_init lowest highest significant_figures allocated =
    if ltb significant_figures 1 || ltb 5 significant_figures
    then einval
    else elim (buckets_loop 64 mask highest 1) [
      | none ↦ overflow
      | some bucket_count ↦
          if allocated
          then created (fresh lowest highest significant_figures unit_magnitude bucket_count)
          else enomem
    ]
  where
    unit_magnitude : ℕ
    unit_magnitude = floor_log2 lowest

    mask : ℕ
    mask = (2 ^ (half_magnitude significant_figures + 1) - 1) * 2 ^ unit_magnitude

pub hdr_alloc : ℕ → ℕ → Bool → InitResult
unfolding hdr_init
hdr_alloc highest significant_figures allocated = hdr_init 1 highest significant_figures allocated

pub hdr_reset : Histogram → Histogram
hdr_reset h = record h { total_count = 0; counts = replicate h.counts_len 0 }

-- `sizeof(struct hdr_histogram)` is 72 on the LP64 targets of the Makefile: eight bytes for
-- each int64_t, four for each int32_t, and four of padding before `total_count`.
unfoldable hdr_get_memory_size : Histogram → ℕ
hdr_get_memory_size h = 72 + h.counts_len * 8

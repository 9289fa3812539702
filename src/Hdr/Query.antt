-- ===== src/Hdr/Query.antt =====
-- Reading a histogram: hdr_max, hdr_min, hdr_value_at_percentile, hdr_mean and hdr_stddev of
-- wrk2/src/hdr_histogram.c.
pub mod Entries
pub mod Last
pub mod Extremes
pub mod Percentile
pub mod Mean
pub mod Deviation
use weaver_dsb.Prelude.{ℕ, zero, suc, ◌+◌, ◌*◌, ◌%◌, ◌^◌, Bool, true, false, ◌&&◌, not}
use weaver_dsb.Prelude.Tests.{ltb, leb, ◌==◌, if◌then◌else◌}
use weaver_dsb.Prelude.Int.{ℤ, pos, pos_part, ltb_ℤ, as_int64}
use weaver_dsb.Prelude.Float.{Float}
use weaver_dsb.Prelude.Checked.{Checked, returned, aborted, out_of_fuel, ◌>>=◌}
use weaver_dsb.Hdr.{
  Histogram, highest_equivalent_value, lowest_equivalent_value, median_equivalent_value,
}
use weaver_dsb.Hdr.Iter.{Iter, Flow, next, stop, iter_loop, hdr_iter_init, rounds}

max_body : Iter → ℕ → Flow ℕ
max_body iter max = next (if iter.count_at_index == 0 then max else iter.highest_equivalent_value)

pub hdr_max : Histogram → Checked ℕ
hdr_max h = do
  max ← iter_loop (rounds h) h max_body hdr_iter_init 0
  returned (lowest_equivalent_value h max)

min_body : Iter → ℕ → Flow ℕ
min_body iter min =
    if not (iter.count_to_index == 0) && (min == 0) then stop iter.value_from_index else next min

pub hdr_min : Histogram → Checked ℕ
hdr_min h = iter_loop (rounds h) h min_body hdr_iter_init 0

-- the variable `total`, and what `return` gives: 0 after the loop
percentile_body : Histogram → ℕ → Iter → ℕ × ℕ → Flow (ℕ × ℕ)
percentile_body h count_at_percentile iter (total, answer) =
    if leb count_at_percentile (total + iter.count_at_index)
    then stop (total + iter.count_at_index, highest_equivalent_value h iter.value_from_index)
    else next (total + iter.count_at_index, answer)

-- The loop of hdr_value_at_percentile, for the rank that it looks for.
pub value_at_rank : Histogram → ℕ → Checked ℕ
value_at_rank h count_at_percentile = do
  s ← iter_loop (rounds h) h (percentile_body h count_at_percentile) hdr_iter_init (0, 0)
  returned s.1

-- The sum of hdr_mean, an int64_t, by its bits: an overflow wraps, as it does on the usual
-- machines.
mean_body : Histogram → Iter → ℕ → Flow ℕ
mean_body h iter total = next (
    if iter.count_at_index == 0
    then total
    else ((total + iter.count_at_index * median_equivalent_value h iter.value_from_index) % 2 ^ 64))

pub mean_total : Histogram → Checked ℕ
mean_total h = iter_loop (rounds h) h (mean_body h) hdr_iter_init 0

module _ (f : Float) where
  open f use {Double, of_ℕ, of_ℤ, literal, plus, minus, times, over, sqrt, less, truncate}

  pub count_at_percentile : Histogram → Double → ℕ
  count_at_percentile h percentile =
      let requested_percentile = if less percentile (of_ℕ 100) then percentile else of_ℕ 100 in
      let count =
        truncate (
          plus (times (over requested_percentile (of_ℕ 100)) (of_ℕ h.total_count))
            (literal 5 10)) in
      if ltb_ℤ (pos 1) count then pos_part count else 1

  pub hdr_value_at_percentile : Histogram → Double → Checked ℕ
  unfolding count_at_percentile
  hdr_value_at_percentile h percentile = value_at_rank h (count_at_percentile h percentile)

  pub hdr_mean : Histogram → Checked Double
  unfolding mean_total
  hdr_mean h = do
    total ← mean_total h
    returned (over (times (of_ℤ (as_int64 total)) (of_ℕ 1)) (of_ℕ h.total_count))

  stddev_body : Histogram → Double → Iter → Double → Flow Double
  stddev_body h mean iter geometric_dev_total =
      let dev =
        minus (times (of_ℕ (median_equivalent_value h iter.value_from_index)) (of_ℕ 1)) mean in
      next (
        if iter.count_at_index == 0
        then geometric_dev_total
        else plus geometric_dev_total (times (times dev dev) (of_ℕ iter.count_at_index)))

  pub hdr_stddev : Histogram → Checked Double
  unfolding hdr_mean
  hdr_stddev h = do
    mean ← hdr_mean h
    total ← iter_loop (rounds h) h (stddev_body h mean) hdr_iter_init (of_ℕ 0)
    returned (sqrt (over total (of_ℕ h.total_count)))

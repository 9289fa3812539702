-- ===== src/Hdr/Record.antt =====
-- Recording values: hdr_record_value, hdr_record_values and hdr_record_corrected_value of
-- wrk2/src/hdr_histogram.c. Each returns the histogram it leaves beside the code's result.
pub mod Laws
pub mod Corrected
use weaver_dsb.Prelude.{ℕ, zero, suc, ◌+◌, ◌-◌, Bool, true, false, ◌||◌}
use weaver_dsb.Prelude.Tests.{leb, if◌then◌else◌}
use weaver_dsb.Prelude.Lists.{get_or, set}
use weaver_dsb.Prelude.Int.{ℤ, pos, negsuc, leb_ℤ}
use weaver_dsb.Prelude.Checked.{Checked, returned, aborted, out_of_fuel, ◌>>=◌}
use weaver_dsb.Hdr.{Histogram, counts_index_for}

abbrev pub Recorded : Type 0
Recorded = Checked (Histogram × Bool)

-- `counts[counts_index] += count; total_count += count;` behind the test of the index
unfoldable pub store : Histogram → ℕ → ℤ → Histogram × Bool
store h count (negsuc i) = (h, false)
store h count (pos i) = if leb h.counts_len i then (h, false) else (
  record h {
    total_count = h.total_count + count;
    counts = set h.counts i (get_or h.counts i 0 + count);
  },
  true,
)

unfoldable pub hdr_record_value : Histogram → ℤ → Recorded
hdr_record_value h value = do i ← counts_index_for h value; returned (store h 1 i)

pub hdr_record_values : Histogram → ℤ → ℕ → Recorded
hdr_record_values h value count = do i ← counts_index_for h value; returned (store h count i)

-- The loop over the values that the stall kept from being measured. It runs at a positive
-- interval, and ends when less than one is left; the first argument is fuel.
pub correct_loop : ℕ → Histogram → ℕ → ℕ → Recorded
correct_loop zero h missing_value interval = out_of_fuel
correct_loop (suc fuel) h missing_value interval = elim (leb interval missing_value) [
  | false ↦ returned (h, true)
  | true ↦ hdr_record_value h (pos missing_value) >>= λ r. elim r.1 [
    | true ↦ correct_loop fuel r.0 (missing_value - interval) interval
    | false ↦ returned (r.0, false)
  ]
]

-- After a value above a positive interval: the loop from `value - expected_interval`.
correct : Histogram → ℤ → ℤ → Recorded
correct h (pos value) (pos interval) = correct_loop (value + 1) h (value - interval) interval
correct h _ _ = returned (h, true)

pub hdr_record_corrected_value : Histogram → ℤ → ℤ → Recorded
unfolding correct
hdr_record_corrected_value h value expected_interval = hdr_record_value h value >>= λ r. elim r.1 [
  | false ↦ returned (r.0, false)
  | true ↦
      if leb_ℤ expected_interval (pos 0) || leb_ℤ value expected_interval
      then returned (r.0, true)
      else correct r.0 value expected_interval
]

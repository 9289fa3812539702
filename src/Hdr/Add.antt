-- ===== src/Hdr/Add.antt =====
-- hdr_add of wrk2/src/hdr_histogram.c, which merges one histogram into another. main of wrk.c calls
-- it once for each thread.
pub mod Alike
pub mod Laws
use weaver_dsb.Prelude.{ℕ, zero, suc, ◌+◌, Bool, true, false}
use weaver_dsb.Prelude.Int.{pos}
use weaver_dsb.Prelude.Checked.{Checked, returned, aborted, out_of_fuel, ◌>>=◌}
use weaver_dsb.Hdr.{Histogram}
use weaver_dsb.Hdr.Iter.{Iter, hdr_recorded_iter_next, hdr_iter_init, rounds}
use weaver_dsb.Hdr.Record.{hdr_record_values}

-- The loop over the recorded values of `from`, on fuel.
pub add_loop : ℕ → Histogram → Histogram → Iter → ℕ → Checked (Histogram × ℕ)
add_loop zero h from iter dropped = out_of_fuel
add_loop (suc fuel) h from iter dropped = hdr_recorded_iter_next (rounds from) from iter >>= λ r.
    elim r.1 [
      | false ↦ returned (h, dropped)
      | true ↦ hdr_record_values h (pos r.0.value_from_index) r.0.count_at_index >>= λ w. elim w.1 [
        | true ↦ add_loop fuel w.0 from r.0 dropped
        | false ↦ add_loop fuel w.0 from r.0 (dropped + r.0.count_at_index)
      ]
    ]

-- the merged histogram, and the count of the values dropped
pub hdr_add : Histogram → Histogram → Checked (Histogram × ℕ)
hdr_add h from = add_loop (rounds from) h from hdr_iter_init 0

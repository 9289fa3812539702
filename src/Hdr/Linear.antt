-- ===== src/Hdr/Linear.antt =====
-- The linear and the logarithmic iterator of wrk2/src/hdr_histogram.c.
pub mod Steps
use weaver_dsb.Prelude.{ℕ, zero, suc, ◌+◌, ◌*◌, Bool, true, false, ◌||◌}
use weaver_dsb.Prelude.Tests.{ltb, leb, if◌then◌else◌}
use weaver_dsb.Prelude.Int.{pos_part}
use weaver_dsb.Prelude.Float.{Float}
use weaver_dsb.Prelude.Checked.{Checked, returned, aborted, out_of_fuel, ◌>>=◌}
use weaver_dsb.Hdr.{Histogram, lowest_equivalent_value}
use weaver_dsb.Hdr.Iter.{
  Iter, hdr_iter_init, has_next, move_next, peek_next_value_from_index, rounds,
}

-- The fields that `struct hdr_linear_iter` and `struct hdr_log_iter` share. The step to the next
-- level, by an addition or a multiplication, is an argument of the functions.
pub record Levels : Type 0 where
  pub iter : Iter
  pub count_added_in_this_iteration_step : ℕ
  pub next_value_reporting_level : ℕ
  pub next_value_reporting_level_lowest_equivalent : ℕ

-- hdr_linear_iter_init and hdr_log_iter_init, for the first level
unfoldable init_levels : Histogram → ℕ → Levels
init_levels h first = record {
  iter = hdr_iter_init;
  count_added_in_this_iteration_step = 0;
  next_value_reporting_level = first;
  next_value_reporting_level_lowest_equivalent = lowest_equivalent_value h first;
}

abbrev pub next_level : (ℕ → ℕ) → Histogram → Levels → Levels
next_level step h x = record x {
  next_value_reporting_level = step x.next_value_reporting_level;
  next_value_reporting_level_lowest_equivalent =
      lowest_equivalent_value h (step x.next_value_reporting_level);
}

abbrev pub moved : Levels → Iter → Levels
moved x iter = record x {
  iter = iter;
  count_added_in_this_iteration_step = x.count_added_in_this_iteration_step + iter.count_at_index;
}

-- The loop, on fuel.
pub levels_loop : ℕ → (ℕ → ℕ) → Histogram → Levels → Checked (Levels × Bool)
levels_loop zero step h x = out_of_fuel
levels_loop (suc fuel) step h x =
    if leb x.next_value_reporting_level_lowest_equivalent x.iter.value_from_index
    then returned (next_level step h x, true)
    else move_next h x.iter >>= λ r. elim r.1 [
      | false ↦ returned (record x { iter = r.0 }, false)
      | true ↦ levels_loop fuel step h (moved x r.0)
    ]

pub levels_next : (ℕ → ℕ) → Histogram → Levels → Checked (Levels × Bool)
levels_next step h x =
    let started = record x { count_added_in_this_iteration_step = 0 } in
    if has_next h x.iter
      || ltb x.next_value_reporting_level_lowest_equivalent (peek_next_value_from_index h x.iter)
    then levels_loop (rounds h) step h started
    else returned (started, false)

unfoldable hdr_linear_iter_next : ℕ → Histogram → Levels → Checked (Levels × Bool)
hdr_linear_iter_next value_units_per_bucket h x =
    levels_next (λ level. level + value_units_per_bucket) h x

-- The product is a `double`, converted to an int64_t.
unfoldable hdr_log_iter_next : (f : Float) → f.Double → Histogram → Levels → Checked (Levels × Bool)
hdr_log_iter_next f log_base h x =
    levels_next (λ level. pos_part (f.truncate (f.times (f.of_ℕ level) log_base))) h x

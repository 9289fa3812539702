-- ===== src/Hdr/Percentiles.antt =====
-- The percentile iterator of wrk2/src/hdr_histogram.c, and hdr_percentiles_print. The text that
-- printf makes of a row, and whether a write succeeds, are the environment's.
pub mod Steps
pub mod Print
use weaver_dsb.Prelude.{
  ℕ, zero, suc, ◌+◌, ◌-◌, Bool, true, false, ◌&&◌, ◌||◌, not, List, [], ◌∷◌, ◌++◌,
}
use weaver_dsb.Prelude.Tests.{◌==◌, if◌then◌else◌}
use weaver_dsb.Prelude.Lists.{length, take}
use weaver_dsb.Prelude.Text.{codes}
use weaver_dsb.Prelude.Int.{ℤ, pos, negsuc, pos_part, ◌+ℤ◌, as_int64, mul64}
use weaver_dsb.Prelude.Float.{Float}
use weaver_dsb.Prelude.Checked.{Checked, returned, out_of_fuel, ◌>>=◌}
use weaver_dsb.Hdr.{Histogram, bits64}
use weaver_dsb.Hdr.Iter.{Iter, hdr_iter_init, hdr_iter_next, has_next, rounds}
use weaver_dsb.Hdr.Query.{hdr_mean, hdr_stddev, hdr_max}

-- `struct hdr_percentile_iter`
pub record Percentiles (f : Float) : Type 0 where
  pub iter : Iter
  pub seen_last_value : Bool
  pub ticks_per_half_distance : ℕ
  pub percentile_to_iterate_to : f.Double
  pub percentile : f.Double

-- `format_type`
pub data Format : Type 0 where
  classic csv : Format

-- format_line_string: `digits` is what "%d" makes of the number of figures. snprintf keeps one
-- byte less than the length of the buffer.
unfoldable pub format_line_string : ℕ → List ℕ → Format → List ℕ
format_line_string len digits csv = take (len - 1) (codes "%." ++ digits ++ codes "f,%f,%d,%.2f\n")
format_line_string len digits classic =
    take (len - 1) (codes "%12." ++ digits ++ codes "f %12f %12d %12.2f\n")

unfoldable format_head_string : Format → List ℕ
format_head_string csv = codes "%s,%s,%s,%s\n"
format_head_string classic = codes "%12s %12s %12s %12s\n\n"

abbrev pub starts_before : ℤ → Bool
starts_before (pos n) = false
starts_before (negsuc n) = n == 0

module _ (f : Float) where
  open f use {Double, of_ℕ, of_ℤ, minus, times, over, less, equal, truncate, log, pow}

  unfoldable pub hdr_percentile_iter_init : ℕ → Percentiles f
  hdr_percentile_iter_init ticks = record {
    iter = hdr_iter_init;
    seen_last_value = false;
    ticks_per_half_distance = ticks;
    percentile_to_iterate_to = of_ℕ 0;
    percentile = of_ℕ 0;
  }

  -- the condition of the loop's `if`
  unfoldable pub is_due : Histogram → Iter → Double → Bool
  is_due h iter to =
      let current_percentile =
        over (times (of_ℕ 100) (of_ℕ iter.count_to_index)) (of_ℕ h.total_count) in
      not (iter.count_at_index == 0) && (less to current_percentile || equal to current_percentile)

  -- The next level; the number of ticks is not negative. The product is an int64_t.
  unfoldable pub next_percentile : ℕ → Double → Double
  next_percentile ticks to =
      let exponent =
        truncate (over (log (over (of_ℕ 100) (minus (of_ℕ 100) to))) (log (of_ℕ 2))) +ℤ pos 1 in
      let half_distance = truncate (pow (of_ℕ 2) (of_ℤ exponent)) in
      let percentile_reporting_ticks = as_int64 (mul64 ticks (bits64 half_distance)) in
      f.plus to (over (of_ℕ 100) (of_ℤ percentile_reporting_ticks))

  abbrev pub report : Percentiles f → Percentiles f
  report p = record p {
    percentile = p.percentile_to_iterate_to;
    percentile_to_iterate_to = next_percentile p.ticks_per_half_distance p.percentile_to_iterate_to;
  }

  -- The loop, on fuel.
  unfoldable pub percentile_loop : ℕ → Histogram → Percentiles f → Checked (Percentiles f × Bool)
  percentile_loop zero h p = out_of_fuel
  percentile_loop (suc fuel) h p =
      if is_due h p.iter p.percentile_to_iterate_to
      then returned (report p, true)
      else hdr_iter_next h p.iter >>= λ r. elim r.1 [
        | false ↦ returned (record p { iter = r.0 }, true)
        | true ↦ percentile_loop fuel h (record p { iter = r.0 })
      ]

  -- the first step, which the start has still to take
  unfoldable pub start_percentiles : Histogram → Percentiles f → Checked (Percentiles f × Bool)
  start_percentiles h p =
      if starts_before p.iter.sub_bucket_index
      then (hdr_iter_next h p.iter >>= λ r. returned (record p { iter = r.0 }, r.1))
      else returned (p, true)

  -- where nothing is left to be counted: once more, for 100 percent
  unfoldable pub last_percentile : Percentiles f → Percentiles f × Bool
  last_percentile p =
      if p.seen_last_value
      then (p, false)
      else (record p { seen_last_value = true; percentile = of_ℕ 100 }, true)

  unfoldable pub hdr_percentile_iter_next :
      Histogram → Percentiles f → Checked (Percentiles f × Bool)
  hdr_percentile_iter_next h p =
      if has_next h p.iter
      then (start_percentiles h p >>= λ r. elim r.1 [
        | false ↦ returned (r.0, false)
        | true ↦ percentile_loop (rounds h) h r.0
      ])
      else returned (last_percentile p)

  -- the four numbers of a row
  pub record Row : Type 0 where
    pub value : Double
    pub percentile : Double
    pub total_count : ℕ
    pub inverted_percentile : Double

  unfoldable pub row_of : Double → Percentiles f → Row
  row_of value_scale p = record {
    value = over (of_ℕ p.iter.highest_equivalent_value) value_scale;
    percentile = over p.percentile (of_ℕ 100);
    total_count = p.iter.count_to_index;
    inverted_percentile = over (of_ℕ 1) (minus (of_ℕ 1) (over p.percentile (of_ℕ 100)));
  }

  -- The loop over the rows, on fuel: those written, and whether a write failed. `accepts n` is
  -- whether the write after `n` others succeeds.
  unfoldable pub rows_loop :
      (ℕ → Bool) → Double → ℕ → Histogram → Percentiles f → List Row → Checked (List Row × Bool)
  rows_loop accepts value_scale zero h p rows = out_of_fuel
  rows_loop accepts value_scale (suc fuel) h p rows = hdr_percentile_iter_next h p >>= λ r.
      elim r.1 [
        | false ↦ returned (rows, false)
        | true ↦
            let rest =
              rows_loop accepts value_scale fuel h r.0 (rows ++ (row_of value_scale r.0 ∷ [])) in
            if accepts (suc (length rows)) then rest else returned (rows, true)
      ]

  -- the mean, the deviation and the maximum of the footer
  abbrev pub Footer : Type 0
  Footer = Double × Double × Double

  unfoldable pub footer_of : Double → Histogram → Checked Footer
  footer_of value_scale h = do
    mean ← hdr_mean f h
    stddev ← hdr_stddev f h
    greatest ← hdr_max h
    returned (over mean value_scale, over stddev value_scale, over (of_ℕ greatest) value_scale)

  unfoldable pub print_footer :
      (ℕ → Bool) → Double → Format → Histogram → List Row × Bool → Checked (List Row × Bool)
  print_footer accepts value_scale csv h (rows, failed) = returned (rows, failed)
  print_footer accepts value_scale classic h (rows, failed) =
      if failed
      then returned (rows, true)
      else footer_of value_scale h >>= λ footer. returned (rows, not (accepts (suc (length rows))))

  -- The rows written, and whether the result is EIO. The head is the first write.
  unfoldable pub hdr_percentiles_print :
      (ℕ → Bool) → ℕ → Double → Format → ℕ → Histogram → Checked (List Row × Bool)
  hdr_percentiles_print accepts ticks value_scale format fuel h =
      if accepts 0
      then (do
        printed ← rows_loop accepts value_scale fuel h (hdr_percentile_iter_init ticks) []
        print_footer accepts value_scale format h printed)
      else returned ([], true)

-- ===== src/Wrk/Printed.antt =====
-- The tables that wrk2/src/wrk.c prints: print_stats_header, print_stats, print_hdr_latency and
-- print_stats_latency. What printf makes of one number is an argument.
use weaver_dsb.Prelude.{ℕ, true, Option, none, some, List, [], ◌∷◌, ◌++◌}
use weaver_dsb.Prelude.Text.{codes}
use weaver_dsb.Prelude.Int.{ℤ}
use weaver_dsb.Prelude.Float.{Float}
use weaver_dsb.Prelude.Checked.{Checked, returned, aborted, ◌>>=◌}
use weaver_dsb.Hdr.{Histogram}
use weaver_dsb.Hdr.Query.{hdr_value_at_percentile}
use weaver_dsb.Stats.{Stats}
use weaver_dsb.Stats.Summary.{stats_summarize, stats_stdev, stats_percentile, stats_within_stdev}
use weaver_dsb.Format.{print_units, in_width, format_time_us}

abbrev print_stats_header : List ℕ
print_stats_header =
    codes "  Thread Stats"
    ++ in_width 6 (codes "Avg")
    ++ in_width 11 (codes "Stdev")
    ++ in_width 8 (codes "99%")
    ++ in_width 12 (codes "+/- Stdev")

-- strlen of NULL, where a format function has no memory, is undefined.
abbrev pub units_of : Option (List ℕ) → ℕ → Checked (List ℕ)
units_of none width = aborted
units_of (some text) width = returned (print_units text width)

module _ (f : Float) where
  -- "%8.2Lf%%", and "%7.3Lf%%" for a percentile
  module _ (share percentile : f.Double → List ℕ) (printed : ℕ → f.Double → List ℕ) where
    -- The line: the mean, the deviation, the 99th percentile, and the share within a deviation.
    unfoldable print_stats :
        ((ℕ → ℕ → ℤ) → List ℕ → List ℕ)
        → (f.Double → Option (List ℕ))
        → Stats
        → Checked (List (List ℕ))
    print_stats qsort fmt s = do
      summary ← stats_summarize f qsort s
      stdev ← stats_stdev f summary.0 summary.1
      mean_text ← units_of (fmt summary.1) 8
      stdev_text ← units_of (fmt stdev) 10
      rank ← stats_percentile f summary.0 (f.of_ℕ 99)
      rank_text ← units_of (fmt (f.of_ℕ rank)) 9
      within ← stats_within_stdev f summary.0 summary.1 stdev 1
      returned (mean_text ∷ stdev_text ∷ rank_text ∷ share within ∷ [])

    -- 50, 75, 90, 99, 99.9, 99.99, 99.999 and 100 percent
    abbrev pub percentiles : List f.Double
    percentiles =
        f.of_ℕ 50
        ∷ f.of_ℕ 75
        ∷ f.of_ℕ 90
        ∷ f.of_ℕ 99
        ∷ f.literal 999 10
        ∷ f.literal 9999 100
        ∷ f.literal 99999 1000
        ∷ f.of_ℕ 100
        ∷ []

    -- a line for each percentile, with the value that it is asked of
    unfoldable pub percentile_lines :
        (f.Double → Checked ℕ) → List f.Double → Checked (List (List ℕ × List ℕ))
    percentile_lines value_at [] = returned []
    percentile_lines value_at (p ∷ ps) = do
      value ← value_at p
      text ← units_of (format_time_us f printed true (f.of_ℕ value)) 10
      rest ← percentile_lines value_at ps
      returned ((percentile p, text) ∷ rest)

    -- up to the call of hdr_percentiles_print
    abbrev print_hdr_latency : Histogram → Checked (List (List ℕ × List ℕ))
    print_hdr_latency h = percentile_lines (λ p. hdr_value_at_percentile f h p) percentiles

    abbrev print_stats_latency : Stats → Checked (List (List ℕ × List ℕ))
    print_stats_latency s = percentile_lines (λ p. stats_percentile f s p) percentiles

-- ===== src/Tests/Samples.antt =====
-- The theorems about wrk2/src/stats.c and the buffers of script.c on small inputs.
use weaver_dsb.Prelude.{
  ℕ, List, min, ◌^◌, ◌+◌, ◌*◌, ◌/◌, ◌%◌, ◌≤◌, ◌<◌, ◌≡◌, arith, [], ◌∷◌, ◌++◌, true, max,
}
use weaver_dsb.Prelude.Lists.{length, sum, take}
use weaver_dsb.Prelude.Tests.{◌==◌, if◌then◌else◌}
use weaver_dsb.Prelude.Int.{pos, ltb_ℤ}
use weaver_dsb.Prelude.Checked.{returned}
use weaver_dsb.Buffers.{Buffer, buffer_append}
use weaver_dsb.Buffers.Room.{buffer_append_lem}
use weaver_dsb.Stats.{Stats, uint64_max, stats_alloc, stats_record}
use weaver_dsb.Stats.Ring.{Holds, stats_alloc-Holds, stats_record-Holds}
use weaver_dsb.Stats.Order.{stats_compare, stats_compare-far}
use weaver_dsb.Stats.Sampling.{rand64, rand64_lem}
use weaver_dsb.Stats.Summary.{within_counts, stats_mean}
use weaver_dsb.Stats.Newest.{recorded, stats_mean_lem}
use weaver_dsb.Stats.Within.{within_counts_lem}
use weaver_dsb.Tests.Data.{pairs, pairs-IsValid, whole_numbers}

stats_record-Holds_example :
    (s : Stats) × (stats_record (stats_alloc 2) 7 ≡ returned s) × Holds s (7 ∷ [])
stats_record-Holds_example =
    stats_record-Holds {s = stats_alloc 2} {history = []} 7
      (stats_alloc-Holds 2 (omega arith) (omega arith))

abbrev three_values : List ℕ
three_values = 9 ∷ 4 ∷ 7 ∷ []

-- a ring of two places
stats_mean_lem_example :
    (s : Stats) × (recorded 2 three_values ≡ returned s)
    × (stats_mean whole_numbers s
        ≡ returned (
            if min (length three_values) 2 == 0
            then whole_numbers.of_ℕ 0
            else whole_numbers.over
                (whole_numbers.of_ℕ (sum (take 2 three_values) % 2 ^ 64))
                (whole_numbers.of_ℕ (min (length three_values) 2))))
stats_mean_lem_example = stats_mean_lem whole_numbers 2 three_values (omega arith) (omega arith)

stats_compare-far_example : ltb_ℤ (stats_compare 3000000000 1) (pos 0) ≡ true
stats_compare-far_example = stats_compare-far 3000000000 1 (omega arith) (omega arith) (omega arith)

rand64_lem_example :
    (j : ℕ) × (rand64 3 (λ i. i + 20) 5 7 ≡ returned ((5 + j + 20) % 7, 5 + j + 1))
    × (j ≤ 0)
    × (5 + j + 20 < uint64_max / 7 * 7)
    × ((5 + j + 20) % 7 < 7)
rand64_lem_example = rand64_lem 0 3 (λ i. i + 20) 5 7 (omega arith) (omega arith) (omega arith)

within_counts_lem_example :
    (r : ℕ × ℕ) × (within_counts pairs (pos 1) (pos 2) ≡ returned r) × (r.0 ≤ r.1) × (r.1 ≤ 3)
within_counts_lem_example = within_counts_lem {h = pairs} pairs-IsValid (pos 1) (pos 2)

abbrev empty : Buffer
empty = record { length = 0; used = [] }

buffer_append_lem_example :
    (b' : Buffer) × (buffer_append empty (71 ∷ 69 ∷ []) ≡ returned b')
    × (b'.used ≡ [] ++ (71 ∷ 69 ∷ []))
    × (length b'.used + 1 < b'.length)
    × (b'.length ≤ max 0 (length b'.used + 1 + 1024))
buffer_append_lem_example = buffer_append_lem empty (71 ∷ 69 ∷ [])

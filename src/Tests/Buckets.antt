-- ===== src/Tests/Buckets.antt =====
-- The theorems about wrk2/src/hdr_histogram.c on a small histogram.
use weaver_dsb.Prelude.{
  Bool, ℕ, zero, suc, ◌+◌, ◌-◌, ◌*◌, List, ◌≤◌, ◌≡◌, refl, arith, [], ◌∷◌, ◌⊎◌, ◌↔◌, true, false,
}
use weaver_dsb.Prelude.Tests.{ltb, if◌then◌else◌}
use weaver_dsb.Prelude.Lists.{get_or}
use weaver_dsb.Prelude.Int.{pos}
use weaver_dsb.Prelude.Checked.{returned, aborted}
use weaver_dsb.Bits.{bit_length}
use weaver_dsb.Hdr.{
  Histogram, hdr_count_at_value, hdr_values_are_equivalent, lowest_equivalent_value,
  size_of_equivalent_value_range, get_bucket_index, counts_index_for, counts_index,
}
use weaver_dsb.Hdr.Equivalent.{size_bounds, equivalent_iff, counts_index_for_mono}
use weaver_dsb.Hdr.Init.{created, hdr_init}
use weaver_dsb.Hdr.Init.Laws.{IsValid, IsFresh, hdr_init-IsFresh}
use weaver_dsb.Hdr.Record.{hdr_record_value, hdr_record_corrected_value, store}
use weaver_dsb.Hdr.Record.Laws.{IsCovered, hdr_record_value-outcome, hdr_count_at_value-record}
use weaver_dsb.Hdr.Record.Corrected.{spans, hdr_record_corrected_value_lem}
use weaver_dsb.Hdr.Iter.{hdr_iter_next}
use weaver_dsb.Hdr.Iter.{increment_bucket}
use weaver_dsb.Hdr.Iter.Values.{place, value_of}
use weaver_dsb.Prelude.{◌<◌}
use weaver_dsb.Hdr.{median_equivalent_value}
use weaver_dsb.Hdr.Iter.Places.{visited, count_before, hdr_iter_next_lem}
use weaver_dsb.Hdr.Query.{hdr_max, hdr_min, count_at_percentile, hdr_value_at_percentile}
use weaver_dsb.Hdr.Query.{hdr_mean}
use weaver_dsb.Wrk.Setup.Laws.{day-IsSupported}
use weaver_dsb.Hdr.Percentiles.{Row, classic, hdr_percentiles_print, next_percentile, is_due}
use weaver_dsb.Hdr.Percentiles.Print.{IsWritten, IsProgress, hdr_percentiles_print_lem}
use weaver_dsb.Hdr.Linear.{Levels, levels_next}
use weaver_dsb.Hdr.Linear.Steps.{IsStepped, levels_next_lem}
use weaver_dsb.Hdr.Query.Mean.{weighted, hdr_mean_lem}
use weaver_dsb.Hdr.Query.Last.{IsGreatest}
use weaver_dsb.Hdr.Query.Extremes.{IsLeast, hdr_max_lem, hdr_min_lem}
use weaver_dsb.Hdr.Query.Percentile.{IsRanked, hdr_value_at_percentile_lem}
use weaver_dsb.Tests.Data.{pairs, pairs-IsValid, pairs-IsAlike, whole_numbers}
use weaver_dsb.Hdr.Add.{hdr_add}
use weaver_dsb.Hdr.Add.Alike.{IsAlike}
use weaver_dsb.Hdr.Add.Laws.{hdr_add_lem}

abbrev hundred : ℕ
hundred = 100

hdr_record_value-outcome_example :
    (IsCovered pairs (pos 5)
      × ((h' : Histogram) × (hdr_record_value pairs (pos 5) ≡ returned (h', true))
          × IsValid h'
          × (h'.total_count ≡ 4)))
    ⊎ (¬ (IsCovered pairs (pos 5)) × (hdr_record_value pairs (pos 5) ≡ aborted))
hdr_record_value-outcome_example =
    hdr_record_value-outcome {h = pairs} (pos 5) pairs-IsValid (omega arith)

hdr_add_lem_example :
    (r : Histogram) × (hdr_add pairs pairs ≡ returned (r, 0))
    × IsValid r
    × ((k : ℕ) → get_or r.counts k 0 ≡ get_or pairs.counts k 0 + get_or pairs.counts k 0)
    × (r.total_count ≡ 6)
    × IsAlike r pairs
hdr_add_lem_example =
    hdr_add_lem {h = pairs} {from = pairs} pairs-IsValid pairs-IsValid pairs-IsAlike

-- 4 is counted where 5 is.
recorded : Histogram
recorded = record pairs { total_count = 4; counts = 0 ∷ 1 ∷ 0 ∷ 2 ∷ 1 ∷ 0 ∷ [] }

record_5 : hdr_record_value pairs (pos 5) ≡ returned (recorded, true)
unfolding hdr_record_value counts_index_for counts_index get_bucket_index bit_length store recorded
record_5 = refl

read_4 : hdr_count_at_value pairs (pos 4) ≡ returned 0
unfolding hdr_count_at_value counts_index_for counts_index get_bucket_index bit_length
read_4 = refl

hdr_count_at_value-record_example :
    hdr_count_at_value recorded (pos 4)
    ≡ returned (if hdr_values_are_equivalent pairs 5 4 then 0 + 1 else 0)
hdr_count_at_value-record_example =
    hdr_count_at_value-record {h = pairs} 5 4 0 recorded true pairs-IsValid (omega arith)
      (omega arith) (omega arith) record_5 read_4

hdr_value_at_percentile_lem_example :
    (answer : ℕ) × (hdr_value_at_percentile whole_numbers pairs hundred ≡ returned answer)
    × IsRanked pairs (count_at_percentile whole_numbers pairs hundred) answer
hdr_value_at_percentile_lem_example =
    hdr_value_at_percentile_lem whole_numbers {h = pairs} pairs-IsValid hundred

hdr_init-IsFresh_example :
    (h : Histogram) × (hdr_init 1 86400000000 3 true ≡ created h) × IsFresh 1 86400000000 3 h
hdr_init-IsFresh_example =
    hdr_init-IsFresh {lowest = 1} {highest = 86400000000} {figures = 3} day-IsSupported

hdr_record_corrected_value_lem_example :
    (h' : Histogram) × (hdr_record_corrected_value pairs (pos 7) (pos 2) ≡ returned (h', true))
    × IsValid h'
    × (h'.total_count ≡ 3 + spans 7 (pos 2))
hdr_record_corrected_value_lem_example =
    hdr_record_corrected_value_lem {h = pairs} 7 (pos 2) pairs-IsValid (omega arith) (omega arith)

size_bounds_example :
    (size_of_equivalent_value_range pairs 5 ≡ 1) ⊎ (2 * size_of_equivalent_value_range pairs 5 ≤ 5)
size_bounds_example = size_bounds {h = pairs} pairs-IsValid.laid_out 5 (omega arith)

equivalent_iff_example :
    (counts_index_for pairs (pos 4) ≡ counts_index_for pairs (pos 5))
    ↔ (hdr_values_are_equivalent pairs 4 5 ≡ true)
equivalent_iff_example =
    equivalent_iff {h = pairs} pairs-IsValid.laid_out 4 5 (omega arith) (omega arith)

counts_index_for_mono_example :
    (i : ℕ) × (j : ℕ) × (counts_index_for pairs (pos 2) ≡ returned (pos i))
    × (counts_index_for pairs (pos 6) ≡ returned (pos j))
    × (i ≤ j)
    × (j < 6)
counts_index_for_mono_example =
    counts_index_for_mono {h = pairs} pairs-IsValid.laid_out 2 6 (omega arith) (omega arith)

hdr_max_lem_example : (m : ℕ) × (hdr_max pairs ≡ returned m) × IsGreatest pairs m
hdr_max_lem_example = hdr_max_lem {h = pairs} pairs-IsValid

hdr_min_lem_example : (m : ℕ) × (hdr_min pairs ≡ returned m) × IsLeast pairs m
hdr_min_lem_example = hdr_min_lem {h = pairs} pairs-IsValid

hdr_iter_next_lem_example :
    hdr_iter_next pairs (visited pairs 2)
    ≡ returned
        (if ltb (count_before pairs 2) 3 then (visited pairs 3, true) else (visited pairs 2, false))
hdr_iter_next_lem_example = hdr_iter_next_lem {h = pairs} pairs-IsValid 2 (omega arith)

hdr_mean_lem_example :
    hdr_mean whole_numbers pairs
    ≡ returned (whole_numbers.over (whole_numbers.times (weighted pairs 6) 1) 3)
unfolding weighted value_of place increment_bucket median_equivalent_value lowest_equivalent_value
    size_of_equivalent_value_range get_bucket_index bit_length
hdr_mean_lem_example = hdr_mean_lem {h = pairs} pairs-IsValid whole_numbers (omega arith)

-- the first step to the level 2
abbrev level_two : Levels
level_two = record {
  iter = visited pairs 0;
  count_added_in_this_iteration_step = 0;
  next_value_reporting_level = 2;
  next_value_reporting_level_lowest_equivalent = 2;
}

levels_next_lem_example :
    (r : Levels × Bool) × (levels_next (λ level. level + 2) pairs level_two ≡ returned r)
    × IsStepped pairs 0 0 2 r
levels_next_lem_example =
    levels_next_lem {h = pairs} pairs-IsValid (λ level. level + 2) 0 level_two (omega arith) refl

-- the levels go up by ten while they are below a hundred
abbrev below : ℕ → ℕ
below to = 101 - to

due_below : (i to : ℕ) → i ≤ 6 → is_due whole_numbers pairs (visited pairs i) to ≡ true → to ≤ 100
unfolding is_due visited
due_below zero to le due = absurd (cc due)
due_below (suc zero) to le due = absurd (cc due)
due_below (suc (suc zero)) to le due = ground arith
due_below (suc (suc (suc zero))) to le due = absurd (cc due)
due_below (suc (suc (suc (suc zero)))) to le due = ground arith
due_below (suc (suc (suc (suc (suc zero))))) to le due = absurd (cc due)
due_below (suc (suc (suc (suc (suc (suc zero)))))) to le due = absurd (cc due)
due_below (suc (suc (suc (suc (suc (suc (suc i))))))) to le due = absurd (omega arith)

levels_rise : IsProgress whole_numbers pairs 5 below
unfolding next_percentile
levels_rise = record { goes_down = λ i to le left due. omega (arith, due_below i to le due) }

hdr_percentiles_print_lem_example :
    (r : List (Row whole_numbers) × Bool) × (hdr_percentiles_print whole_numbers
        (λ n. true)
        5
        1000
        classic
        104
        pairs
      ≡ returned r)
    × IsWritten whole_numbers pairs r
hdr_percentiles_print_lem_example =
    hdr_percentiles_print_lem whole_numbers {h = pairs} pairs-IsValid (λ n. true) 1000 5 below
      levels_rise classic

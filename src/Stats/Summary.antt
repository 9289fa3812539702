-- ===== src/Stats/Summary.antt =====
-- stats_summarize, stats_mean, stats_stdev, stats_within_stdev and stats_percentile of
-- wrk2/src/stats.c.
use weaver_dsb.Prelude.{ℕ, ◌+◌, ◌-◌, Bool, true, false, ◌&&◌, ◌||◌, none, some, List, [], ◌∷◌, ◌++◌}
use weaver_dsb.Prelude.Tests.{ltb, ◌==◌, if◌then◌else◌}
use weaver_dsb.Prelude.Lists.{get_or, take, drop}
use weaver_dsb.Prelude.Int.{ℤ, pos, ltb_ℤ, add64}
use weaver_dsb.Prelude.Float.{Float}
use weaver_dsb.Prelude.Checked.{Checked, returned, ◌>>=◌}
use weaver_dsb.Hdr.{Histogram}
use weaver_dsb.Hdr.Iter.{Iter, Flow, next, stop, iter_loop, hdr_iter_init, rounds}
use weaver_dsb.Hdr.Query.{hdr_mean, hdr_stddev, hdr_value_at_percentile}
use weaver_dsb.Stats.{Stats}
use weaver_dsb.Stats.Order.{stats_compare}

-- the sum of the samples, which wraps
unfoldable pub sum64 : List ℕ → ℕ → ℕ
sum64 [] sum = sum
sum64 (x ∷ xs) sum = sum64 xs (add64 sum x)

-- the variables `lower_count` and `upper_count`, and `found_upper`
unfoldable pub within_body : ℤ → ℤ → Iter → ℕ × ℕ × Bool → Flow (ℕ × ℕ × Bool)
within_body lower_value upper_value iter (lower_count, upper_count, found) =
    let lower =
      if ltb_ℤ (pos iter.value_from_index) lower_value then iter.count_to_index else lower_count in
    if ltb_ℤ upper_value (pos iter.highest_equivalent_value)
    then stop (lower, iter.count_to_index, true)
    else next (lower, upper_count, found)

-- the counts of a histogram's values up to the two bounds
unfoldable pub within_counts : Histogram → ℤ → ℤ → Checked (ℕ × ℕ)
within_counts h lower_value upper_value = do
  r ← iter_loop (rounds h) h (within_body lower_value upper_value) hdr_iter_init (0, 0, false)
  returned (r.0, if r.2 then r.1 else h.total_count)

module _ (f : Float) where
  open f use {Double, of_ℕ, literal, plus, minus, times, over, sqrt, less, equal, truncate, round}

  unfoldable pub stats_mean : Stats → Checked Double
  stats_mean s = elim s.histogram [
    | some h ↦ hdr_mean f h
    | none ↦ returned (
        if s.limit == 0
        then of_ℕ 0
        else over (of_ℕ (sum64 (take s.limit s.values) 0)) (of_ℕ s.limit))
  ]

  -- `qsort` of the C library, by the comparison, is an argument; it sorts the first `limit`.
  unfoldable pub stats_summarize :
      ((ℕ → ℕ → ℤ) → List ℕ → List ℕ) → Stats → Checked (Stats × Double)
  stats_summarize qsort s = do
    let sorted = record s {
      values = qsort stats_compare (take s.limit s.values) ++ drop s.limit s.values;
    }
    mean ← stats_mean sorted
    returned (sorted, mean)

  unfoldable pub square_deviations : Double → List ℕ → Double → Double
  square_deviations mean [] sum = sum
  square_deviations mean (x ∷ xs) sum =
      square_deviations mean xs (plus sum (times (minus (of_ℕ x) mean) (minus (of_ℕ x) mean)))

  unfoldable pub stats_stdev : Stats → Double → Checked Double
  stats_stdev s mean = elim s.histogram [
    | some h ↦ hdr_stddev f h
    | none ↦ returned (
        if ltb s.limit 2
        then of_ℕ 0
        else sqrt
            (over (square_deviations mean (take s.limit s.values) (of_ℕ 0)) (of_ℕ (s.limit - 1))))
  ]

  -- the samples from `lower` to `upper`
  unfoldable pub count_within : Double → Double → List ℕ → ℕ → ℕ
  count_within lower upper [] sum = sum
  count_within lower upper (x ∷ xs) sum = count_within lower upper xs (
      if (less lower (of_ℕ x) || equal lower (of_ℕ x))
        && (less (of_ℕ x) upper || equal (of_ℕ x) upper)
      then sum + 1
      else sum)

  -- The share, in percent, of the samples within `n` deviations of the mean.
  unfoldable pub stats_within_stdev : Stats → Double → Double → ℕ → Checked Double
  stats_within_stdev s mean stdev n =
      let upper = plus mean (times stdev (of_ℕ n)) in
      let lower = minus mean (times stdev (of_ℕ n)) in
      elim s.histogram [
        | some h ↦
            if h.total_count == 0
            then returned (of_ℕ 0)
            else within_counts h (truncate lower) (truncate upper) >>= λ r.
                returned (over (times (of_ℕ 100) (of_ℕ (r.1 - r.0))) (of_ℕ h.total_count))
        | none ↦ returned (
            times (over (of_ℕ (count_within lower upper (take s.limit s.values) 0)) (of_ℕ s.limit))
              (of_ℕ 100))
      ]

  -- A rank past the samples reads what lies there, here 0; a value of a histogram is not negative.
  unfoldable pub stats_percentile : Stats → Double → Checked ℕ
  stats_percentile s p = elim s.histogram [
    | some h ↦ hdr_value_at_percentile f h p
    | none ↦
        let rank = round (plus (times (over p (of_ℕ 100)) (of_ℕ s.limit)) (literal 5 10)) in
        returned (get_or s.values (rank - 1) 0)
  ]

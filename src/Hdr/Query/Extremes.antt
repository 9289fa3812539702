-- ===== src/Hdr/Query/Extremes.antt =====
-- hdr_max and hdr_min give the least equivalents of the greatest and of the least recorded value.
use weaver_dsb.Prelude.{ℕ, suc, ◌^◌, ◌≤◌, ◌<◌, ◌≡◌, refl, ◌∙◌, arith, dec_le, ℕ_discrete, false}
use weaver_dsb.Prelude.Tests.{◌==◌}
use weaver_dsb.Prelude.Lists.{get_or, sum-take-suc, sum-take-le}
use weaver_dsb.Prelude.Int.{pos}
use weaver_dsb.Prelude.Checked.{returned}
use weaver_dsb.Hdr.{
  Histogram, lowest_equivalent_value, highest_equivalent_value, hdr_count_at_value,
}
use weaver_dsb.Hdr.Index.{index_of}
use weaver_dsb.Hdr.Equivalent.{lowest-highest}
use weaver_dsb.Hdr.Init.Laws.{IsValid}
use weaver_dsb.Hdr.Iter.Loops.{Keeps, iter_loop_lem}
use weaver_dsb.Hdr.Iter.Values.{value_of, index_of-value_of, highest-value_of-lt, lowest-value_of}
use weaver_dsb.Hdr.Iter.Places.{count_before, visited}
use weaver_dsb.Hdr.Query.{hdr_max, max_body, hdr_min, min_body}
use weaver_dsb.Hdr.Query.Entries.{fits, value_of-le-lowest, counted_at, read-value_of}
use weaver_dsb.Hdr.Query.Last.{
  IsLast, none_yet, last, max_of, IsGreatest, IsGreatest-last, IsGreatest-none, zero_lowest,
  count-pos,
}

module _ {h : Histogram} (v : IsValid h) where
  -- the invariant of the loop, and what it leaves
  abbrev Found : ℕ → ℕ → Type 0
  Found n max = (f : IsLast h n) × (max ≡ max_of f)

  lowest-highest_of :
      (i : ℕ)
      → i < h.counts_len
      → lowest_equivalent_value h (highest_equivalent_value h (value_of h i)) ≡ value_of h i
  lowest-highest_of i lt =
      lowest-highest v.laid_out (value_of h i) (fits v i lt)
        (rw (index_of-value_of v.laid_out i lt) lt)
        (omega (arith, highest-value_of-lt v.laid_out i lt))
      ∙ lowest-value_of v.laid_out i lt

  skip_zero : {i max : ℕ} → get_or h.counts i 0 ≡ 0 → Found i max → Found (suc i) max
  skip_zero {i} z (none_yet e, m) = (none_yet (omega (arith, e, z, sum-take-suc h.counts i)), m)
  skip_zero {i} z (last j lt c e, m) =
      (last j lt c (omega (arith, e, z, sum-take-suc h.counts i)), m)

  max_round :
      (i max : ℕ)
      → i < h.counts_len
      → count_before h i < h.total_count
      → Found i max
      → Keeps Found
          (λ max. IsGreatest h (lowest_equivalent_value h max))
          (suc i)
          (max_body (visited h (suc i)) max)
  unfolding max_body visited
  max_round i max lt more found = elim (ℕ_discrete (get_or h.counts i 0) 0) [
    | yes z ↦ rw z (skip_zero z found)
    | no some_count ↦
        let test : (get_or h.counts i 0 == 0) ≡ false = ground arith in
        rw test (last i lt (omega arith) refl, refl)
  ]

  Greatest-of-Found :
      (n max : ℕ)
      → h.total_count ≤ count_before h n
      → Found n max
      → IsGreatest h (lowest_equivalent_value h max)
  Greatest-of-Found n max done (none_yet z, e) =
      rw (e, zero_lowest v) (IsGreatest-none v (omega (arith, done, z)))
  Greatest-of-Found n max done (last i lt some_count same, e) =
      rw (e, lowest-highest_of i lt)
        (IsGreatest-last v i lt some_count
          (omega (arith, done, same, v.total, sum-take-le h.counts (suc i))))

  -- hdr_max of a valid histogram returns, with the least equivalent of the greatest recorded value,
  -- or with 0 if none is recorded.
  pub hdr_max_lem : (m : ℕ) × (hdr_max h ≡ returned m) × IsGreatest h m
  unfolding hdr_max
  hdr_max_lem =
      let (m, e, g) =
        iter_loop_lem v max_body Found (λ max. IsGreatest h (lowest_equivalent_value h max))
          max_round (λ i s le done found. Greatest-of-Found i s done found) 0
          (none_yet refl, refl) in
      (lowest_equivalent_value h m, rw e refl, g)

-- `m` is the least equivalent of the least recorded value, or 0 if there is none.
pub record IsLeast (h : Histogram) (m : ℕ) : Type 0 where
  pub recorded : 0 < h.total_count → (c : ℕ) × (hdr_count_at_value h (pos m) ≡ returned c) × (0 < c)
  pub least :
      (value c : ℕ)
      → value < 2 ^ 63
      → hdr_count_at_value h (pos value) ≡ returned c
      → 0 < c
      → m ≤ lowest_equivalent_value h value
  pub empty : h.total_count ≡ 0 → m ≡ 0

module _ {h : Histogram} (v : IsValid h) where
  IsLeast-first :
      (i : ℕ)
      → i < h.counts_len
      → 0 < get_or h.counts i 0
      → count_before h i ≡ 0
      → IsLeast h (value_of h i)
  IsLeast-first i lt some_count none_before = record {
    recorded = λ _. (get_or h.counts i 0, read-value_of v i lt, some_count);
    least = λ value c small read c_pos.
        let (within, same) = counted_at v value c small read in
        value_of-le-lowest v value i small lt
          (not_before (index_of h value) (omega (arith, same, c_pos)));
    empty = λ e. absurd (
        omega (
          arith,
          some_count,
          count-pos v i (suc i) (omega arith),
          sum-take-le h.counts (suc i),
          v.total,
          e,
        ));
  }
    where
      not_before : (j : ℕ) → 0 < get_or h.counts j 0 → i ≤ j
      not_before j c = elim (dec_le i j) [
        | yes le ↦ le
        | no gt ↦ absurd (omega (arith, c, count-pos v j i (omega arith), none_before))
      ]

  IsLeast-none : h.total_count ≡ 0 → IsLeast h 0
  IsLeast-none e = record {
    recorded = λ some_count. absurd (omega arith);
    least = λ value c small read c_pos. omega arith;
    empty = λ _. refl;
  }

  -- nothing is counted so far
  abbrev Nothing : ℕ → ℕ → Type 0
  Nothing n min = (count_before h n ≡ 0) × (min ≡ 0)

  min_round :
      (i min : ℕ)
      → i < h.counts_len
      → count_before h i < h.total_count
      → Nothing i min
      → Keeps Nothing (IsLeast h) (suc i) (min_body (visited h (suc i)) min)
  unfolding min_body visited
  min_round i min lt more (none_before, e) = elim (ℕ_discrete (count_before h (suc i)) 0) [
    | yes z ↦ rw (z, e) (z, refl)
    | no some_count ↦
        let test : (count_before h (suc i) == 0) ≡ false = ground arith in
        rw (test, e)
          (IsLeast-first i lt (omega (arith, none_before, sum-take-suc h.counts i)) none_before)
  ]

  -- hdr_min of a valid histogram returns, with the least equivalent of the least recorded value, or
  -- with 0 if none is recorded.
  pub hdr_min_lem : (m : ℕ) × (hdr_min h ≡ returned m) × IsLeast h m
  unfolding hdr_min
  hdr_min_lem =
      iter_loop_lem v min_body Nothing (IsLeast h) min_round
        (λ i s le done found. rw found.1 (IsLeast-none (omega (arith, done, found.0)))) 0
        (refl, refl)

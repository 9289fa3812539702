-- ===== src/Hdr/Query/Last.antt =====
-- The last counter that is not zero, and the greatest recorded value, for hdr_max of
-- wrk2/src/hdr_histogram.c.
use weaver_dsb.Prelude.{ℕ, suc, ◌^◌, ◌≤◌, ◌<◌, ◌≡◌, refl, arith, dec_le}
use weaver_dsb.Prelude.Lists.{get_or, sum-take-suc, sum-take_mono, sum-take-le}
use weaver_dsb.Prelude.Int.{pos}
use weaver_dsb.Prelude.Checked.{returned}
use weaver_dsb.Hdr.{
  Histogram, lowest_equivalent_value, highest_equivalent_value, hdr_count_at_value,
}
use weaver_dsb.Hdr.Index.{index_of}
use weaver_dsb.Hdr.Equivalent.{lowest-le}
use weaver_dsb.Hdr.Init.Laws.{IsValid}
use weaver_dsb.Hdr.Iter.Values.{value_of}
use weaver_dsb.Hdr.Iter.Places.{count_before}
use weaver_dsb.Hdr.Query.Entries.{lowest-le-value_of, counted_at, read-value_of}

-- No value is recorded, or `counts[i]` is the last counter that is not zero.
pub data IsLast (h : Histogram) (n : ℕ) : Type 0 where
  none_yet : count_before h n ≡ 0 → IsLast h n
  last :
      (i : ℕ)
      → i < h.counts_len
      → 0 < get_or h.counts i 0
      → count_before h (suc i) ≡ count_before h n
      → IsLast h n

-- what the loop of hdr_max has found after `n` steps
abbrev pub max_of : {h : Histogram} {n : ℕ} → IsLast h n → ℕ
max_of (none_yet e) = 0
max_of {h} (last i lt some_count e) = highest_equivalent_value h (value_of h i)

-- `m` is the least equivalent of the greatest recorded value, or 0 if there is none.
pub record IsGreatest (h : Histogram) (m : ℕ) : Type 0 where
  pub recorded : 0 < h.total_count → (c : ℕ) × (hdr_count_at_value h (pos m) ≡ returned c) × (0 < c)
  pub greatest :
      (value c : ℕ)
      → value < 2 ^ 63
      → hdr_count_at_value h (pos value) ≡ returned c
      → 0 < c
      → lowest_equivalent_value h value ≤ m
  pub empty : h.total_count ≡ 0 → m ≡ 0

module _ {h : Histogram} (v : IsValid h) where
  -- A counter that is not zero counts before every later one.
  pub count-pos : (i n : ℕ) → i < n → get_or h.counts i 0 ≤ count_before h n
  count-pos i n lt = omega (arith, sum-take-suc h.counts i, sum-take_mono h.counts (suc i) n lt)

  pub no_count_after :
      (i j : ℕ) → count_before h (suc i) ≡ h.total_count → 0 < get_or h.counts j 0 → j ≤ i
  no_count_after i j all some_count = elim (dec_le j i) [
    | yes le ↦ le
    | no gt ↦ absurd (
        omega (
          arith,
          sum-take-suc h.counts j,
          sum-take_mono h.counts (suc i) j (omega arith),
          sum-take-le h.counts (suc j),
          v.total,
        ))
  ]

  pub IsGreatest-last :
      (i : ℕ)
      → i < h.counts_len
      → 0 < get_or h.counts i 0
      → count_before h (suc i) ≡ h.total_count
      → IsGreatest h (value_of h i)
  IsGreatest-last i lt some_count all = record {
    recorded = λ _. (get_or h.counts i 0, read-value_of v i lt, some_count);
    greatest = λ value c small read c_pos.
        let (within, same) = counted_at v value c small read in
        lowest-le-value_of v value i small lt
          (no_count_after i (index_of h value) all (omega (arith, same, c_pos)));
    empty = λ e. absurd (omega (arith, some_count, count-pos i (suc i) (omega arith), all, e));
  }

  pub zero_lowest : lowest_equivalent_value h 0 ≡ 0
  zero_lowest = omega (arith, lowest-le {h = h} v.laid_out 0)

  pub IsGreatest-none : h.total_count ≡ 0 → IsGreatest h 0
  IsGreatest-none e = record {
    recorded = λ some_count. absurd (omega arith);
    greatest = λ value c small read c_pos.
        let (within, same) = counted_at v value c small read in
        absurd (
          omega (
            arith,
            e,
            v.total,
            c_pos,
            same,
            count-pos (index_of h value) (suc (index_of h value)) (omega arith),
            sum-take-le h.counts (suc (index_of h value)),
          ));
    empty = λ _. refl;
  }

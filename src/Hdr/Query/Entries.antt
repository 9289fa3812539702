-- ===== src/Hdr/Query/Entries.antt =====
-- How a value stands to the entries of the array.
use weaver_dsb.Prelude.{ℕ, ◌^◌, ◌≤◌, ◌<◌, ◌≡◌, ap, ◌∙◌, arith, dec_lt}
use weaver_dsb.Prelude.Lists.{get_or}
use weaver_dsb.Prelude.Int.{pos}
use weaver_dsb.Prelude.Checked.{returned, ◌>>=◌}
use weaver_dsb.Hdr.{
  Histogram, lowest_equivalent_value, highest_equivalent_value, hdr_count_at_value,
  counts_index_for,
}
use weaver_dsb.Hdr.Layout.{capacity}
use weaver_dsb.Hdr.Index.{index_of}
use weaver_dsb.Hdr.Capacity.{capacity_iff, counts_index_for-past}
use weaver_dsb.Hdr.Equivalent.{lowest_mono}
use weaver_dsb.Hdr.Init.Laws.{IsValid}
use weaver_dsb.Hdr.Record.Laws.{hdr_count_at_value_lem}
use weaver_dsb.Hdr.Iter.Values.{value_of, value_of-lt, index_of-value_of, lowest-value_of}

module _ {h : Histogram} (v : IsValid h) where
  pub fits : (i : ℕ) → i < h.counts_len → value_of h i < 2 ^ 63
  fits i lt = omega (arith, value_of-lt v.laid_out i lt)

  -- An entry that comes no earlier than a value's has no smaller values.
  pub lowest-le-value_of :
      (value i : ℕ)
      → value < 2 ^ 63
      → i < h.counts_len
      → index_of h value ≤ i
      → lowest_equivalent_value h value ≤ value_of h i
  lowest-le-value_of value i small lt le = rw (← lowest-value_of v.laid_out i lt) (
      lowest_mono v.laid_out value (value_of h i) small (fits i lt)
        (omega (arith, le, index_of-value_of v.laid_out i lt)))

  pub value_of-le-lowest :
      (value i : ℕ)
      → value < 2 ^ 63
      → i < h.counts_len
      → i ≤ index_of h value
      → value_of h i ≤ lowest_equivalent_value h value
  value_of-le-lowest value i small lt le = rw (← lowest-value_of v.laid_out i lt) (
      lowest_mono v.laid_out (value_of h i) value (fits i lt) small
        (omega (arith, le, index_of-value_of v.laid_out i lt)))

  -- Reading a counter that is not zero: the value is covered, and its entry is counted.
  pub counted_at :
      (value count : ℕ)
      → value < 2 ^ 63
      → hdr_count_at_value h (pos value) ≡ returned count
      → (index_of h value < h.counts_len) × (get_or h.counts (index_of h value) 0 ≡ count)
  unfolding hdr_count_at_value
  counted_at value count small read = elim (dec_lt value (capacity h)) [
    | yes lt ↦ (
      (capacity_iff v.laid_out value small).0 lt,
      ground (arith, hdr_count_at_value_lem value v small lt),
    )
    | no ge ↦ absurd (
        cc (
          ap (λ r. r >>= λ i. returned (weaver_dsb.Hdr.count_at h i))
            (counts_index_for-past v.laid_out value small (omega arith))))
  ]

  -- The entry at `i` read by its value.
  pub read-value_of :
      (i : ℕ)
      → i < h.counts_len
      → hdr_count_at_value h (pos (value_of h i)) ≡ returned (get_or h.counts i 0)
  read-value_of i lt =
      let place = index_of-value_of v.laid_out i lt in
      hdr_count_at_value_lem (value_of h i) v (fits i lt)
        ((capacity_iff v.laid_out (value_of h i) (fits i lt)).1 (omega (arith, place, lt)))
      ∙ ap (λ (k : ℕ). returned (get_or h.counts k 0)) place

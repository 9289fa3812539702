-- ===== src/Hdr/Record/Laws.antt =====
-- Recording keeps the invariant, counts where it should and nowhere else, and never reports
-- failure.
use weaver_dsb.Prelude.{
  ℕ, ◌+◌, ◌^◌, ◌≤◌, ◌<◌, ◌≡◌, refl, ◌∙◌, Bool, true, arith, dec_lt, ◌⊎◌, inl, inr,
}
use weaver_dsb.Prelude.Tests.{if◌then◌else◌}
use weaver_dsb.Prelude.Lists.{get_or, set, length-set, get_or-set_self, get_or-set_ne, sum-set}
use weaver_dsb.Prelude.Int.{ℤ, pos, negsuc}
use weaver_dsb.Prelude.Checked.{returned, aborted}
use weaver_dsb.Hdr.{Histogram, hdr_count_at_value, hdr_values_are_equivalent, get_bucket_index}
use weaver_dsb.Hdr.Layout.{capacity, IsLaidOut-counts}
use weaver_dsb.Hdr.Index.{index_of}
use weaver_dsb.Hdr.Capacity.{
  capacity_iff, counts_index_for-within, counts_index_for-past, counts_index_for-negative,
}
use weaver_dsb.Hdr.Equivalent.{lowest_iff}
use weaver_dsb.Hdr.Init.Laws.{IsValid}
use weaver_dsb.Hdr.Record.{store, hdr_record_value, hdr_record_values}

-- `h` with `count` more at index `i`
abbrev pub counted : Histogram → ℕ → ℕ → Histogram
counted h i count = record h {
  total_count = h.total_count + count;
  counts = set h.counts i (get_or h.counts i 0 + count);
}

pub counted-IsValid :
    {h : Histogram} (i count : ℕ) → i < h.counts_len → IsValid h → IsValid (counted h i count)
counted-IsValid {h} i count lt v = record {
  laid_out =
      IsLaidOut-counts v.laid_out (h.total_count + count)
        (length-set h.counts i _ ∙ v.laid_out.stored);
  total = omega (
    arith,
    v.total,
    v.laid_out.stored,
    sum-set h.counts i count (omega (arith, v.laid_out.stored)),
  );
}

module _ {h : Histogram} (v : IsValid h) (value : ℕ) (small : value < 2 ^ 63) where
  -- Below the capacity, recording succeeds and adds to the value's own counter.
  pub hdr_record_values_lem :
      (count : ℕ)
      → value < capacity h
      → hdr_record_values h (pos value) count ≡ returned (counted h (index_of h value) count, true)
  unfolding hdr_record_values store
  hdr_record_values_lem count lt = ground (
    arith,
    counts_index_for-within v.laid_out value small lt,
    (capacity_iff v.laid_out value small).0 lt,
  )

  pub hdr_record_value-eq : hdr_record_value h (pos value) ≡ hdr_record_values h (pos value) 1
  unfolding hdr_record_values hdr_record_value
  hdr_record_value-eq = refl

  hdr_record_values-past :
      (count : ℕ) → capacity h ≤ value → hdr_record_values h (pos value) count ≡ aborted
  unfolding hdr_record_values
  hdr_record_values-past count ge = rw (counts_index_for-past v.laid_out value small ge) refl

-- an int64_t, and one that the histogram has a counter for
abbrev pub IsInt64 : ℤ → Type 0
IsInt64 (pos n) = n < 2 ^ 63
IsInt64 (negsuc n) = n < 2 ^ 63

abbrev pub IsCovered : Histogram → ℤ → Type 0
IsCovered h (pos n) = n < capacity h
IsCovered h (negsuc n) = ⊥

-- On a valid histogram recording an int64_t either succeeds, at a value that is covered, and keeps
-- the histogram valid with one more value in it; or the value is not covered, and an assertion
-- fails. The `false` of the code is never returned.
pub hdr_record_value-outcome :
    {h : Histogram} (value : ℤ)
    → IsValid h
    → IsInt64 value
    → (IsCovered h value
        × ((h' : Histogram) × (hdr_record_value h value ≡ returned (h', true))
            × IsValid h'
            × (h'.total_count ≡ h.total_count + 1)))
      ⊎ (¬ (IsCovered h value) × (hdr_record_value h value ≡ aborted))
unfolding hdr_record_value
hdr_record_value-outcome {h} (pos n) v small = elim (dec_lt n (capacity h)) [
  | yes lt ↦ inl (
    lt,
    (
      counted h (index_of h n) 1,
      hdr_record_value-eq v n small ∙ hdr_record_values_lem v n small 1 lt,
      counted-IsValid (index_of h n) 1 ((capacity_iff v.laid_out n small).0 lt) v,
      refl,
    ),
  )
  | no ge ↦ inr (ge, rw (counts_index_for-past v.laid_out n small (omega arith)) refl)
]
hdr_record_value-outcome {h} (negsuc n) v small =
    inr (λ c. c, rw (counts_index_for-negative v.laid_out n small) refl)

-- Reading a counter.
pub hdr_count_at_value_lem :
    {h : Histogram} (value : ℕ)
    → IsValid h
    → value < 2 ^ 63
    → value < capacity h
    → hdr_count_at_value h (pos value) ≡ returned (get_or h.counts (index_of h value) 0)
unfolding hdr_count_at_value
hdr_count_at_value_lem {h} value v small lt =
    rw (counts_index_for-within v.laid_out value small lt) refl

-- The place of a value does not depend on what is counted.
index_of-counted :
    (h : Histogram) (i count value : ℕ) → index_of (counted h i count) value ≡ index_of h value
unfolding get_bucket_index
index_of-counted h i count value = refl

counted_read :
    {h : Histogram} (value other : ℕ)
    → IsValid h
    → value < 2 ^ 63
    → value < capacity h
    → other < 2 ^ 63
    → other < capacity h
    → hdr_count_at_value (counted h (index_of h value) 1) (pos other)
      ≡ returned (
          if hdr_values_are_equivalent h value other
          then get_or h.counts (index_of h other) 0 + 1
          else get_or h.counts (index_of h other) 0)
unfolding hdr_values_are_equivalent
counted_read {h} value other v sv lv so lo =
    let inside = (capacity_iff v.laid_out value sv).0 lv in
    rw
      (
        hdr_count_at_value_lem other (counted-IsValid (index_of h value) 1 inside v) so lo,
        index_of-counted h (index_of h value) 1 other,
      )
      (ground (
        arith,
        inside,
        v.laid_out.stored,
        lowest_iff v.laid_out value other sv so,
        get_or-set_self h.counts (index_of h value) (get_or h.counts (index_of h value) 0 + 1) 0,
        get_or-set_ne h.counts (index_of h value) (index_of h other)
            (get_or h.counts (index_of h value) 0 + 1) 0,
      ))

-- After a value is recorded in a valid histogram, the counter read for any covered value is one
-- more if the two are equivalent, and the same if they are not.
pub hdr_count_at_value-record :
    {h : Histogram} (value other count : ℕ) (h' : Histogram) (done : Bool)
    → IsValid h
    → value < 2 ^ 63
    → other < 2 ^ 63
    → other < capacity h
    → hdr_record_value h (pos value) ≡ returned (h', done)
    → hdr_count_at_value h (pos other) ≡ returned count
    → hdr_count_at_value h' (pos other)
      ≡ returned (if hdr_values_are_equivalent h value other then count + 1 else count)
hdr_count_at_value-record {h} value other count h' done v sv so lt recorded read =
    elim (dec_lt value (capacity h)) [
      | yes lv ↦
          let same : h' ≡ counted h (index_of h value) 1 =
            ground (arith, hdr_record_value-eq v value sv, hdr_record_values_lem v value sv 1 lv) in
          let was : count ≡ get_or h.counts (index_of h other) 0 =
            ground (arith, hdr_count_at_value_lem other v so lt) in
          rw (same, was) (counted_read value other v sv lv so lt)
      | no past ↦ absurd (absurd_abort past)
    ]
  where
    absurd_abort : ¬ (value < capacity h) → ⊥
    absurd_abort past =
        cc (
          hdr_record_value-eq v value sv,
          hdr_record_values-past v value sv 1 (omega (arith, past)),
        )

-- ===== src/Hdr/Capacity.antt =====
-- Which values have a counter, and what the index functions of hdr_histogram.c return for the
-- others.
use weaver_dsb.Prelude.{ℕ, suc, ◌+◌, ◌-◌, ◌*◌, ◌^◌, ◌≤◌, ◌<◌, ◌≡◌, ap, ◌↔◌, arith, dec_lt, dec_le}
use weaver_dsb.Prelude.Int.{pos, negsuc}
use weaver_dsb.Prelude.Checked.{returned, aborted}
use weaver_dsb.Bits.{mul-le_mul_left, bit_length-bit_or, bit_length-eq, pow2-suc, pow2_mono}
use weaver_dsb.Hdr.{Histogram, get_bucket_index, counts_index, counts_index_for}
use weaver_dsb.Hdr.Layout.{
  IsLaidOut, capacity, InBucket, half-pos, mask_small, InBucket-get_bucket_index,
}
use weaver_dsb.Hdr.Index.{bucket_of, index_of, IsAt, IsAt-index_of, IsAt-bound}

pow2-suc_add : (b u : ℕ) → 2 ^ (suc b + u) ≡ 2 * 2 ^ (b + u)
pow2-suc_add b u = omega (arith, pow2-suc (b + u), ap (λ (k : ℕ). 2 ^ k) (sums b u))
  where
    sums : (m n : ℕ) → suc m + n ≡ suc (m + n)
    sums m n = omega arith

module _ {h : Histogram} (l : IsLaidOut h) where
  -- `counts_index` passes its assertions at a place of the array, and gives its index.
  pub counts_index_lem :
      {b s i : ℕ} → IsAt h b s i → i < h.counts_len → counts_index h b (pos s) ≡ returned (pos i)
  unfolding counts_index
  counts_index_lem {b} {s} {i} p lt =
      ground (arith, (IsAt-bound l p).1 lt, l.half, half-pos l, ap (λ (k : ℕ). (b + 1) * k) l.half)

  counts_index-past :
      {b s i : ℕ} → IsAt h b s i → h.counts_len ≤ i → counts_index h b (pos s) ≡ aborted
  unfolding counts_index
  counts_index-past {b} {s} {i} p ge = ground (arith, (IsAt-bound l p).0)

  -- Exactly the values below the capacity have a place in the array.
  pub capacity_iff :
      (value : ℕ) → value < 2 ^ 63 → (value < capacity h) ↔ (index_of h value < h.counts_len)
  capacity_iff value small = (
    λ lt. place.0 (elim (dec_lt b h.bucket_count) [
      | yes p ↦ p
      | no p ↦ absurd (omega (arith, lt, past (omega arith)))
    ]),
    λ lt. within (place.1 lt),
  )
    where
      b : ℕ
      b = bucket_of h value

      place : (b < h.bucket_count) ↔ (index_of h value < h.counts_len)
      place = IsAt-bound l (IsAt-index_of l value small)

      v : InBucket h value b
      v = InBucket-get_bucket_index l value small

      half_mono :
          (x y : ℕ)
          → x ≤ y
          → h.sub_bucket_half_count * 2 ^ (x + h.unit_magnitude)
            ≤ h.sub_bucket_half_count * 2 ^ (y + h.unit_magnitude)
      half_mono x y le = mul-le_mul_left h.sub_bucket_half_count _ _ (pow2_mono _ _ (omega arith))

      within : b < h.bucket_count → value < capacity h
      within lt = omega (
        arith,
        v.below,
        half_mono (suc b) h.bucket_count lt,
        ap (λ (k : ℕ). k * 2 ^ (b + h.unit_magnitude)) l.whole,
        ap (λ (k : ℕ). h.sub_bucket_half_count * k) (pow2-suc_add b h.unit_magnitude),
      )

      past : h.bucket_count ≤ b → capacity h ≤ value
      past ge = omega (arith, v.above, l.some_bucket, half_mono h.bucket_count b ge)

  -- the bit pattern of a negative number has its top bit set
  bucket_of_negative : (n : ℕ) → n < 2 ^ 63 → 0 < get_bucket_index h (negsuc n)
  unfolding get_bucket_index
  bucket_of_negative n small = omega (
    arith,
    bit_length-bit_or 64 (2 ^ 64 - suc n) h.sub_bucket_mask (omega arith) (mask_small l),
    bit_length-eq 64 (2 ^ 64 - suc n) 63 (omega arith) (omega arith) (omega arith),
    l.mask_fits,
  )

  -- A negative value fails an assertion.
  pub counts_index_for-negative : (n : ℕ) → n < 2 ^ 63 → counts_index_for h (negsuc n) ≡ aborted
  unfolding counts_index_for counts_index
  counts_index_for-negative n small = ground (arith, bucket_of_negative n small)

  -- what `counts_index_for` gives below the capacity, and past it
  pub counts_index_for-within :
      (value : ℕ)
      → value < 2 ^ 63
      → value < capacity h
      → counts_index_for h (pos value) ≡ returned (pos (index_of h value))
  unfolding counts_index_for
  counts_index_for-within value small lt =
      counts_index_lem (IsAt-index_of l value small) ((capacity_iff value small).0 lt)

  pub counts_index_for-past :
      (value : ℕ) → value < 2 ^ 63 → capacity h ≤ value → counts_index_for h (pos value) ≡ aborted
  unfolding counts_index_for
  counts_index_for-past value small ge =
      counts_index-past (IsAt-index_of l value small)
        (elim (dec_le h.counts_len (index_of h value)) [
          | yes p ↦ p
          | no p ↦ absurd (omega (arith, (capacity_iff value small).1 (omega arith)))
        ])

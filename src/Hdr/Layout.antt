-- ===== src/Hdr/Layout.antt =====
-- The layout that hdr_init sets up, and the bucket of a value.
use weaver_dsb.Prelude.{
  ℕ, zero, suc, ◌+◌, ◌-◌, ◌*◌, ◌^◌, ◌≤◌, ◌<◌, max, ◌≡◌, refl, ap, ◌⊎◌, inl, inr, ◌∙◌, List, arith,
  dec_le, dec_lt,
}
use native.Mathlib.Nat.{zero-add}
use weaver_dsb.Prelude.Lists.{length}
use weaver_dsb.Prelude.Int.{pos}
use weaver_dsb.Bits.{
  bit_length, pow2-suc, pow2-pos, pow2-add, pow2_mono, bit_length-bit_or, bit_length-le,
  bit_length-eq, lt-pow2-bit_length, pow2-le_of_bit_length,
}
use weaver_dsb.Hdr.{Histogram, get_bucket_index}

-- How the fields of a histogram hang together.
pub record IsLaidOut (h : Histogram) : Type 0 where
  pub half : h.sub_bucket_half_count ≡ 2 ^ h.sub_bucket_half_count_magnitude
  pub whole : h.sub_bucket_count ≡ 2 * h.sub_bucket_half_count
  pub mask : h.sub_bucket_mask ≡ (h.sub_bucket_count - 1) * 2 ^ h.unit_magnitude
  pub some_bucket : 1 ≤ h.bucket_count
  pub room : h.counts_len ≡ (h.bucket_count + 1) * h.sub_bucket_half_count
  pub mask_fits : h.unit_magnitude + h.sub_bucket_half_count_magnitude + 1 ≤ 31
  pub shifts_fit : h.unit_magnitude + h.bucket_count ≤ 31
  pub stored : length h.counts ≡ h.counts_len

-- the least value past the last bucket
abbrev pub capacity : Histogram → ℕ
capacity h = h.sub_bucket_half_count * 2 ^ (h.bucket_count + h.unit_magnitude)

-- `value` belongs to bucket `b`.
pub record InBucket (h : Histogram) (value b : ℕ) : Type 0 where
  pub below : value < h.sub_bucket_count * 2 ^ (b + h.unit_magnitude)
  pub above : (b ≡ 0) ⊎ (h.sub_bucket_half_count * 2 ^ (b + h.unit_magnitude) ≤ value)

-- The layout does not depend on what is counted.
pub IsLaidOut-counts :
    {h : Histogram} {counts : List ℕ}
    → IsLaidOut h
    → (total : ℕ) → length counts ≡ h.counts_len
    → IsLaidOut (record h { total_count = total; counts = counts })
IsLaidOut-counts l total e = record {
  half = l.half;
  whole = l.whole;
  mask = l.mask;
  some_bucket = l.some_bucket;
  room = l.room;
  mask_fits = l.mask_fits;
  shifts_fit = l.shifts_fit;
  stored = e;
}

pred-suc : (p : ℕ) → 1 ≤ p → p ≡ suc (p - 1)
pred-suc p h = omega arith

module _ {h : Histogram} (l : IsLaidOut h) where
  pub half-pos : 1 ≤ h.sub_bucket_half_count
  half-pos = rw (l.half) (pow2-pos h.sub_bucket_half_count_magnitude)

  -- A bucket starts and ends at a power of two.
  bucket_start :
      (b k : ℕ)
      → b + h.unit_magnitude + h.sub_bucket_half_count_magnitude ≡ k
      → h.sub_bucket_half_count * 2 ^ (b + h.unit_magnitude) ≡ 2 ^ k
  bucket_start b k e =
      rw (← e, l.half)
        (omega (arith, pow2-add (b + h.unit_magnitude) h.sub_bucket_half_count_magnitude))

  bucket_end :
      (b k : ℕ)
      → b + h.unit_magnitude + h.sub_bucket_half_count_magnitude ≡ k
      → h.sub_bucket_count * 2 ^ (b + h.unit_magnitude) ≡ 2 ^ suc k
  bucket_end b k e = rw (pow2-suc, ← bucket_start b k e, l.whole) (omega arith)

  -- the mask as ones above the unit: between half a bucket end and a bucket end
  mask_bounds :
      (2 ^ (h.unit_magnitude + h.sub_bucket_half_count_magnitude) ≤ h.sub_bucket_mask)
      × (h.sub_bucket_mask < 2 ^ suc (h.unit_magnitude + h.sub_bucket_half_count_magnitude))
  mask_bounds =
      let unit : 1 ≤ 2 ^ h.unit_magnitude = pow2-pos h.unit_magnitude in
      let half : 1 ≤ h.sub_bucket_half_count = half-pos in
      let start = rw zero-add at (bucket_start 0 _ refl) in
      let grown : h.sub_bucket_half_count * 2 ^ h.unit_magnitude
          ≡ ((h.sub_bucket_half_count - 1) + 1) * 2 ^ h.unit_magnitude =
        ap (λ (t : ℕ). t * 2 ^ h.unit_magnitude) (omega arith) in
      let whole : h.sub_bucket_count - 1 ≡ h.sub_bucket_half_count + (h.sub_bucket_half_count - 1) =
        omega (arith, l.whole) in
      let mask : h.sub_bucket_mask
          ≡ (h.sub_bucket_half_count + (h.sub_bucket_half_count - 1)) * 2 ^ h.unit_magnitude =
        l.mask ∙ ap (λ (t : ℕ). t * 2 ^ h.unit_magnitude) whole in
      omega
        (arith, start, grown, mask, pow2-suc (h.unit_magnitude + h.sub_bucket_half_count_magnitude))

  pub mask_small : h.sub_bucket_mask < 2 ^ 64
  mask_small = omega (
    arith,
    mask_bounds,
    pow2_mono (suc (h.unit_magnitude + h.sub_bucket_half_count_magnitude)) 31
        (omega (arith, l.mask_fits)),
  )

  bit_length-mask :
      bit_length 64 h.sub_bucket_mask ≡ suc (h.unit_magnitude + h.sub_bucket_half_count_magnitude)
  bit_length-mask =
      bit_length-eq 64 h.sub_bucket_mask _ mask_bounds.0 mask_bounds.1 (omega (arith, l.mask_fits))

  get_bucket_index_lem :
      (value : ℕ)
      → value < 2 ^ 63
      → get_bucket_index h (pos value)
        ≡ max (bit_length 64 value) (suc (h.unit_magnitude + h.sub_bucket_half_count_magnitude))
          - h.unit_magnitude
          - (h.sub_bucket_half_count_magnitude + 1)
  unfolding get_bucket_index
  get_bucket_index_lem value small = omega (
    arith,
    bit_length-bit_or 64 value h.sub_bucket_mask (omega arith) (
        omega (
          arith,
          mask_bounds,
          pow2_mono (suc (h.unit_magnitude + h.sub_bucket_half_count_magnitude)) 31
              (omega (arith, l.mask_fits)),
        )),
    bit_length-mask,
    l.mask_fits,
    bit_length-le 64 value 64 (omega arith),
  )

  -- the digits of the first bucket's values
  abbrev first_digits : ℕ
  first_digits = suc (h.unit_magnitude + h.sub_bucket_half_count_magnitude)

  InBucket-first : (value : ℕ) → value < 2 ^ first_digits → InBucket h value 0
  InBucket-first value small = record {
    below = rw (bucket_end 0 _ zero_first) small;
    above = inl refl;
  }
    where
      zero_first :
          0 + h.unit_magnitude + h.sub_bucket_half_count_magnitude
          ≡ h.unit_magnitude + h.sub_bucket_half_count_magnitude
      zero_first = rw zero-add refl

  InBucket-later :
      (value b k : ℕ)
      → b + h.unit_magnitude + h.sub_bucket_half_count_magnitude ≡ k
      → 2 ^ k ≤ value
      → value < 2 ^ suc k
      → InBucket h value b
  InBucket-later value b k e lo hi = record {
    below = rw (bucket_end b k e) hi;
    above = inr (rw (bucket_start b k e) lo);
  }

  -- The code's bucket holds the value.
  pub InBucket-get_bucket_index :
      (value : ℕ) → value < 2 ^ 63 → InBucket h value (get_bucket_index h (pos value))
  InBucket-get_bucket_index value small =
      go (bit_length 64 value) refl (lt-pow2-bit_length 64 value (omega arith))
    where
      go :
          (p : ℕ)
          → bit_length 64 value ≡ p
          → value < 2 ^ p
          → InBucket h value (get_bucket_index h (pos value))
      go p e top = elim (dec_le p first_digits) [
        | yes few ↦
            let first : get_bucket_index h (pos value) ≡ 0 =
              omega (arith, get_bucket_index_lem value small) in
            rw first (InBucket-first value (omega (arith, pow2_mono p first_digits few)))
        | no many ↦
            InBucket-later value _ (p - 1) (omega (arith, get_bucket_index_lem value small))
              (pow2-le_of_bit_length 64 value (p - 1) (omega arith))
              (omega (arith, top, ap (λ (t : ℕ). 2 ^ t) (pred-suc p (omega arith))))
      ]

  -- No other bucket does.
  pub get_bucket_index_unique :
      (value b : ℕ) → value < 2 ^ 63 → InBucket h value b → get_bucket_index h (pos value) ≡ b
  get_bucket_index_unique value zero small v = omega (
    arith,
    get_bucket_index_lem value small,
    bit_length-le 64 value _ (rw (bucket_end 0 _ refl) at v.below),
  )
  get_bucket_index_unique value (suc b) small v = go _ refl
    where
      starts :
          (k : ℕ) → suc b + h.unit_magnitude + h.sub_bucket_half_count_magnitude ≡ k → 2 ^ k ≤ value
      starts k e = elim v.above [
        | inl first ↦ absurd (omega arith)
        | inr start ↦ rw (bucket_start (suc b) k e) at start
      ]

      go :
          (k : ℕ)
          → suc b + h.unit_magnitude + h.sub_bucket_half_count_magnitude ≡ k
          → get_bucket_index h (pos value) ≡ suc b
      go k e = elim (dec_lt k 63) [
        | yes fits ↦ omega (
          arith,
          get_bucket_index_lem value small,
          bit_length-eq 64 value k (starts k e) (rw (bucket_end (suc b) k e) at v.below)
              (omega arith),
        )
        | no past ↦ absurd (omega (arith, starts k e, pow2_mono 63 k (omega arith)))
      ]

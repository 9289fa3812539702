-- ===== src/Hdr/Iter/Values.antt =====
-- The places of the counters in the order hdr_iter_next visits them, and their values.
use native.Mathlib.Nat.{div-mul-le_self}
use weaver_dsb.Prelude.{
  ℕ, zero, suc, ◌+◌, ◌*◌, ◌^◌, ◌≤◌, ◌<◌, ◌≡◌, refl, sym, ap, ap₂, ◌∙◌, inl, inr, false, arith,
  subst, dec_le,
}
use weaver_dsb.Prelude.Tests.{leb}
use weaver_dsb.Prelude.Int.{ℤ, pos, negsuc, pos_part}
use weaver_dsb.Bits.{pow2_mono, pow2-pos, mul-le_mul_right, mul-suc-le, pow2-suc}
use weaver_dsb.Hdr.{Histogram, value_from_index, highest_equivalent_value, lowest_equivalent_value}
use weaver_dsb.Hdr.Layout.{IsLaidOut, half-pos}
use weaver_dsb.Hdr.Index.{
  IsAt, width, bucket_of, sub_bucket_of, index_of, IsAt-bound, index_of-entry,
}
use weaver_dsb.Hdr.Equivalent.{highest_lem}
use weaver_dsb.Hdr.Iter.{increment_bucket}

-- the two indices after `n` steps
unfoldable pub place : Histogram → ℕ → ℕ × ℤ
place h zero = (0, negsuc 0)
place h (suc n) = increment_bucket h (place h n)

-- the least value of `counts[i]`
unfoldable pub value_of : Histogram → ℕ → ℕ
value_of h i = value_from_index (place h (suc i)).0 (pos_part (place h (suc i)).1) h.unit_magnitude

-- The place of `counts[i]` is the one that `counts_index` maps to it.
pub record IsPlace (h : Histogram) (i : ℕ) (p : ℕ × ℤ) : Type 0 where
  pub sub : ℕ
  pub sub-eq : p.1 ≡ pos sub
  pub at : IsAt h p.0 sub i

increment-full :
    (h : Histogram) (b s : ℕ)
    → h.sub_bucket_count ≤ s + 1
    → increment_bucket h (b, pos s) ≡ (b + 1, pos h.sub_bucket_half_count)
unfolding increment_bucket
increment-full h b s full = ground arith

increment-room :
    (h : Histogram) (b s : ℕ)
    → s + 1 < h.sub_bucket_count
    → increment_bucket h (b, pos s) ≡ (b, pos (s + 1))
unfolding increment_bucket
increment-room h b s room = ground arith

module _ {h : Histogram} (l : IsLaidOut h) where
  first_place : IsPlace h 0 (increment_bucket h (0, negsuc 0))
  unfolding increment_bucket
  first_place =
      let stays : leb (h.sub_bucket_count + 0) 0 ≡ false = ground (arith, half-pos l, l.whole) in
      rw stays (record {
        sub = 0;
        sub-eq = refl;
        at = record {
          below = omega (arith, half-pos l, l.whole);
          above = inl refl;
          index = omega arith;
        };
      })

  next_from : (b s i : ℕ) → IsAt h b s i → IsPlace h (suc i) (increment_bucket h (b, pos s))
  next_from b s i at = elim (dec_le h.sub_bucket_count (s + 1)) [
    | yes full ↦ rw (increment-full h b s full) (record {
      sub = h.sub_bucket_half_count;
      sub-eq = refl;
      at = record {
        below = omega (arith, half-pos l, l.whole);
        above = inr (omega arith);
        index = omega (arith, at.index, at.below, l.whole);
      };
    })
    | no room ↦ rw (increment-room h b s (omega arith)) (record {
      sub = s + 1;
      sub-eq = refl;
      at = record {
        below = omega arith;
        above = omega (arith, at.above);
        index = omega (arith, at.index);
      };
    })
  ]

  next_place : (i : ℕ) (p : ℕ × ℤ) → IsPlace h i p → IsPlace h (suc i) (increment_bucket h p)
  next_place i p at =
      subst (λ s. IsPlace h (suc i) (increment_bucket h (p.0, s))) (sym at.sub-eq)
        (next_from p.0 at.sub i at.at)

  pub place_lem : (i : ℕ) → IsPlace h i (place h (suc i))
  unfolding place
  place_lem zero = first_place
  place_lem (suc i) = next_place i _ (place_lem i)

  value_of-eq : (i : ℕ) → value_of h i ≡ (place_lem i).sub * width h (place h (suc i)).0
  unfolding value_of
  value_of-eq i = ap (λ (z : ℤ). pos_part z * width h (place h (suc i)).0) (place_lem i).sub-eq

  -- The values of the array stay far below the width of an int64_t.
  pub value_of-lt : (i : ℕ) → i < h.counts_len → value_of h i < 2 ^ 61
  value_of-lt i lt =
      let at = (place_lem i).at in
      let b = (place h (suc i)).0 in
      omega (
        arith,
        value_of-eq i,
        mul-suc-le (place_lem i).sub h.sub_bucket_count (width h b) at.below,
        mul-le_mul_right h.sub_bucket_count (2 ^ 31) (width h b) count_small,
        pow2_mono (b + h.unit_magnitude) 30 (omega (arith, l.shifts_fit, (IsAt-bound l at).1 lt)),
        pow2-pos (b + h.unit_magnitude),
      )
    where
      count_small : h.sub_bucket_count ≤ 2 ^ 31
      count_small = omega (
        arith,
        l.whole,
        l.half,
        pow2-suc h.sub_bucket_half_count_magnitude,
        pow2_mono (suc h.sub_bucket_half_count_magnitude) 31 (omega (arith, l.mask_fits)),
      )

  width_small : (i : ℕ) → i < h.counts_len → width h (place h (suc i)).0 ≤ 2 ^ 30
  width_small i lt =
      pow2_mono ((place h (suc i)).0 + h.unit_magnitude) 30
        (omega (arith, l.shifts_fit, (IsAt-bound l (place_lem i).at).1 lt))

  value_entry :
      (i : ℕ)
      → i < h.counts_len
      → (bucket_of h (value_of h i) ≡ (place h (suc i)).0)
        × (sub_bucket_of h (value_of h i) ≡ (place_lem i).sub)
  value_entry i lt =
      rw (value_of-eq i)
        (index_of-entry l (place_lem i).at (omega (arith, value_of-lt i lt, value_of-eq i)))

  -- The value shown for a counter is one that is counted there.
  pub index_of-value_of : (i : ℕ) → i < h.counts_len → index_of h (value_of h i) ≡ i
  index_of-value_of i lt =
      ap₂ (λ (b s : ℕ). b * h.sub_bucket_half_count + s) (value_entry i lt).0 (value_entry i lt).1
      ∙ sym (place_lem i).at.index

  -- It is the least such value.
  pub lowest-value_of :
      (i : ℕ) → i < h.counts_len → lowest_equivalent_value h (value_of h i) ≡ value_of h i
  unfolding lowest_equivalent_value
  lowest-value_of i lt =
      ap₂ (λ (s b : ℕ). s * width h b) (value_entry i lt).1 (value_entry i lt).0
      ∙ sym (value_of-eq i)

  -- So is the greatest such value far below the width of an int64_t.
  pub highest-value_of-lt :
      (i : ℕ) → i < h.counts_len → highest_equivalent_value h (value_of h i) < 2 ^ 62
  highest-value_of-lt i lt = omega (
    arith,
    highest_lem l (value_of h i) (omega (arith, value_of-lt i lt)) (rw (index_of-value_of i lt) lt),
    value_of-lt i lt,
    div-mul-le_self (value_of h i) (width h (bucket_of h (value_of h i))),
    ap (width h) (value_entry i lt).0,
    width_small i lt,
  )

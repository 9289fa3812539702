-- ===== src/Hdr/Equivalent.antt =====
-- How fine the resolution of a histogram of hdr_histogram.c is: the values that share a counter.
use native.Mathlib.Nat.{div-mul-le_self, lt-div-mul-add}
use weaver_dsb.Prelude.{
  ℕ, ◌+◌, ◌-◌, ◌*◌, ◌^◌, ◌≤◌, ◌<◌, ◌≡◌, refl, sym, ap, ap₂, ◌∙◌, ◌⊎◌, inl, inr, ◌↔◌, arith, dec_lt,
  dec_le, true,
}
use weaver_dsb.Bits.{pow2-pos, pow2_mono, mul-le_mul_right}
use weaver_dsb.Hdr.{
  Histogram, lowest_equivalent_value, size_of_equivalent_value_range, next_non_equivalent_value,
  highest_equivalent_value, counts_index_for, hdr_values_are_equivalent,
}
use weaver_dsb.Hdr.Capacity.{capacity_iff, counts_index_for-within}
use weaver_dsb.Prelude.Int.{pos}
use weaver_dsb.Prelude.Checked.{returned}
use weaver_dsb.Prelude.Inversion.{returned_inj}
use weaver_dsb.Prelude.Tests.{◌==◌}
use weaver_dsb.Hdr.Layout.{IsLaidOut, capacity, InBucket-get_bucket_index}
use weaver_dsb.Hdr.Index.{
  bucket_of, width, sub_bucket_of, index_of, IsAt-index_of, IsAt-bound, IsAt-unique, IsAt-ordered,
  index_of-entry, index_of-within,
}

module _ {h : Histogram} (l : IsLaidOut h) where
  -- A value that is covered is far below 2^63, and has an index in the array.
  covered-small : (value : ℕ) → value < capacity h → value < 2 ^ 63
  covered-small value lt = omega (
    arith,
    lt,
    l.half,
    mul-le_mul_right h.sub_bucket_half_count (2 ^ 31) (2 ^ (h.bucket_count + h.unit_magnitude)) (
        omega (
          arith,
          l.half,
          pow2_mono h.sub_bucket_half_count_magnitude 31 (omega (arith, l.mask_fits)),
        )),
    pow2_mono (h.bucket_count + h.unit_magnitude) 31 (omega (arith, l.shifts_fit)),
  )

  covered : (value : ℕ) → value < capacity h → index_of h value < h.counts_len
  covered value lt = (capacity_iff l value (covered-small value lt)).0 lt

  size_lem :
      (value : ℕ)
      → value < 2 ^ 63
      → index_of h value < h.counts_len
      → size_of_equivalent_value_range h value ≡ width h (bucket_of h value)
  unfolding size_of_equivalent_value_range
  size_lem value small counted = ground (
    arith,
    (IsAt-index_of l value small).below,
    (IsAt-bound l (IsAt-index_of l value small)).1 counted,
    l.shifts_fit,
    ap (λ (k : ℕ). 2 ^ k) (swap (bucket_of h value)),
  )
    where
      swap : (b : ℕ) → h.unit_magnitude + b ≡ b + h.unit_magnitude
      swap b = omega arith

  pub highest_lem :
      (value : ℕ)
      → value < 2 ^ 63
      → index_of h value < h.counts_len
      → highest_equivalent_value h value
        ≡ sub_bucket_of h value * width h (bucket_of h value) + width h (bucket_of h value) - 1
  unfolding highest_equivalent_value next_non_equivalent_value lowest_equivalent_value
  highest_lem value small counted = rw (size_lem value small counted) refl

  pub lowest-le : (value : ℕ) → lowest_equivalent_value h value ≤ value
  unfolding lowest_equivalent_value
  lowest-le value = div-mul-le_self value _

  -- In a histogram that is laid out as hdr_init does it, a value that is covered lies between its
  -- least and its greatest equivalent value.
  pub equivalent_bounds :
      (value : ℕ)
      → value < capacity h
      → (lowest_equivalent_value h value ≤ value) × (value ≤ highest_equivalent_value h value)
  unfolding highest_equivalent_value next_non_equivalent_value lowest_equivalent_value
  equivalent_bounds value lt = (
    div-mul-le_self value _,
    omega (
      arith,
      size_lem value (covered-small value lt) (covered value lt),
      lt-div-mul-add {a = value} (pow2-pos (bucket_of h value + h.unit_magnitude)),
    ),
  )

  -- In a histogram that is laid out as hdr_init does it, the values equivalent to one that is
  -- covered span one unit, or their span times the half count is at most the value.
  pub size_bounds :
      (value : ℕ)
      → value < capacity h
      → (size_of_equivalent_value_range h value ≡ 2 ^ h.unit_magnitude)
        ⊎ (h.sub_bucket_half_count * size_of_equivalent_value_range h value ≤ value)
  size_bounds value lt =
      let small = covered-small value lt in
      let size = size_lem value small (covered value lt) in
      elim (InBucket-get_bucket_index l value small).above [
        | inl first ↦ inl (size ∙ ap (λ (k : ℕ). 2 ^ k) (omega (arith, first)))
        | inr start ↦ inr (rw size start)
      ]

  -- The least equivalent value is counted where the value is.
  index_of-lowest : (v : ℕ) → v < 2 ^ 63 → index_of h (lowest_equivalent_value h v) ≡ index_of h v
  unfolding lowest_equivalent_value
  index_of-lowest v small =
      let entry = index_of-entry l (IsAt-index_of l v small) (omega (arith, small, lowest-le v)) in
      ap₂ (λ (b s : ℕ). b * h.sub_bucket_half_count + s) entry.0 entry.1

  -- Two values have one index exactly when their least equivalent values are the same.
  pub lowest_iff :
      (a b : ℕ)
      → a < 2 ^ 63
      → b < 2 ^ 63
      → (index_of h a ≡ index_of h b) ↔ (lowest_equivalent_value h a ≡ lowest_equivalent_value h b)
  unfolding lowest_equivalent_value
  lowest_iff a b sa sb = (forwards, backwards)
    where
      forwards :
          index_of h a ≡ index_of h b → lowest_equivalent_value h a ≡ lowest_equivalent_value h b
      forwards e =
          let same = IsAt-unique l (IsAt-index_of l a sa) (rw (← e) at (IsAt-index_of l b sb)) in
          ap₂ (λ (s c : ℕ). s * 2 ^ (c + h.unit_magnitude)) same.1 same.0

      backwards :
          lowest_equivalent_value h a ≡ lowest_equivalent_value h b → index_of h a ≡ index_of h b
      backwards e = sym (index_of-lowest a sa) ∙ ap (index_of h) e ∙ index_of-lowest b sb

  -- The greatest equivalent value is counted where the value is.
  pub index_of-highest :
      (v : ℕ)
      → v < 2 ^ 63
      → index_of h v < h.counts_len
      → highest_equivalent_value h v < 2 ^ 63
      → index_of h (highest_equivalent_value h v) ≡ index_of h v
  index_of-highest v small counted fits =
      ap₂ (λ (b s : ℕ). b * h.sub_bucket_half_count + s) inside.0 inside.1
    where
      one : 1 ≤ width h (bucket_of h v)
      one = pow2-pos _

      inside :
          (bucket_of h (highest_equivalent_value h v) ≡ bucket_of h v)
          × (sub_bucket_of h (highest_equivalent_value h v) ≡ sub_bucket_of h v)
      inside =
          index_of-within l (highest_equivalent_value h v) (IsAt-index_of l v small)
            (omega (arith, one, highest_lem v small counted))
            (omega (arith, one, highest_lem v small counted)) fits

  -- So it has the same least equivalent.
  pub lowest-highest :
      (v : ℕ)
      → v < 2 ^ 63
      → index_of h v < h.counts_len
      → highest_equivalent_value h v < 2 ^ 63
      → lowest_equivalent_value h (highest_equivalent_value h v) ≡ lowest_equivalent_value h v
  lowest-highest v small counted fits =
      (lowest_iff (highest_equivalent_value h v) v fits small).0
        (index_of-highest v small counted fits)

  -- Least equivalents are ordered as the counters are.
  pub lowest_mono :
      (a b : ℕ)
      → a < 2 ^ 63
      → b < 2 ^ 63
      → index_of h a ≤ index_of h b
      → lowest_equivalent_value h a ≤ lowest_equivalent_value h b
  unfolding lowest_equivalent_value
  lowest_mono a b sa sb le = elim (dec_lt (index_of h a) (index_of h b)) [
    | yes lt ↦ omega (arith, IsAt-ordered l (IsAt-index_of l a sa) (IsAt-index_of l b sb) lt)
    | no ge ↦ omega (arith, (lowest_iff a b sa sb).0 (omega arith))
  ]

  -- Indices are ordered as the values are.
  index_of_mono : (a b : ℕ) → b < 2 ^ 63 → a ≤ b → index_of h a ≤ index_of h b
  index_of_mono a b small le = elim (dec_le (index_of h a) (index_of h b)) [
    | yes done ↦ done
    | no gt ↦ absurd (
        omega (
          arith,
          IsAt-ordered l (IsAt-index_of l b small) (IsAt-index_of l a (omega arith)) (omega arith),
          div-mul-le_self a (width h (bucket_of h a)),
          lt-div-mul-add {a = b} (pow2-pos (bucket_of h b + h.unit_magnitude)),
        ))
  ]

  -- In a histogram that is laid out as hdr_init does it, counts_index_for gives two values that are
  -- covered the same index exactly when hdr_values_are_equivalent says yes.
  pub equivalent_iff :
      (a b : ℕ)
      → a < capacity h
      → b < capacity h
      → (counts_index_for h (pos a) ≡ counts_index_for h (pos b))
        ↔ (hdr_values_are_equivalent h a b ≡ true)
  unfolding hdr_values_are_equivalent
  equivalent_iff a b ca cb = (
    λ e. same-true (both.0 (pos_inj (returned_inj (sym at_a ∙ e ∙ at_b)))),
    λ e. at_a ∙ ap (λ (i : ℕ). returned (pos i)) (both.1 (true-same e)) ∙ sym at_b,
  )
    where
      both :
          (index_of h a ≡ index_of h b)
          ↔ (lowest_equivalent_value h a ≡ lowest_equivalent_value h b)
      both = lowest_iff a b (covered-small a ca) (covered-small b cb)

      at_a : counts_index_for h (pos a) ≡ returned (pos (index_of h a))
      at_a = counts_index_for-within l a (covered-small a ca) ca

      at_b : counts_index_for h (pos b) ≡ returned (pos (index_of h b))
      at_b = counts_index_for-within l b (covered-small b cb) cb

      pos_inj : {x y : ℕ} → pos x ≡ pos y → x ≡ y
      pos_inj e = cc e

      same-true : {x y : ℕ} → x ≡ y → (x == y) ≡ true
      same-true e = ground (arith, e)

      true-same : {x y : ℕ} → (x == y) ≡ true → x ≡ y
      true-same e = ground (arith, e)

  -- In a histogram that is laid out as hdr_init does it, counts_index_for of a value that is
  -- covered, and of a smaller one, gives indices of the array, and not a smaller one for the
  -- larger value.
  pub counts_index_for_mono :
      (a b : ℕ)
      → a ≤ b
      → b < capacity h
      → (i : ℕ) × (j : ℕ) × (counts_index_for h (pos a) ≡ returned (pos i))
        × (counts_index_for h (pos b) ≡ returned (pos j))
        × (i ≤ j)
        × (j < h.counts_len)
  counts_index_for_mono a b le cb =
      let ca : a < capacity h = omega (arith, le, cb) in
      (
        index_of h a,
        index_of h b,
        counts_index_for-within l a (covered-small a ca) ca,
        counts_index_for-within l b (covered-small b cb) cb,
        index_of_mono a b (covered-small b cb) le,
        covered b cb,
      )

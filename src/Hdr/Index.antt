-- ===== src/Hdr/Index.antt =====
-- The place of a value in `counts`, and the values that share a place.
use native.Mathlib.Nat.{le-div_iff_mul-le, div-lt_iff_lt-mul, div-eq_of_lt-le}
use weaver_dsb.Prelude.{
  ℕ, suc, ◌+◌, ◌*◌, ◌/◌, ◌^◌, ◌≤◌, ◌<◌, ◌≡◌, refl, ap, ◌∙◌, ◌⊎◌, inl, inr, ◌↔◌, arith, dec_lt,
}
use weaver_dsb.Prelude.Int.{pos}
use weaver_dsb.Bits.{mul-le_mul_right, mul-le_mul_left, mul-suc-le, pow2-suc, pow2-pos, pow2_mono}
use weaver_dsb.Hdr.{Histogram, get_bucket_index}
use weaver_dsb.Hdr.Layout.{IsLaidOut, InBucket, InBucket-get_bucket_index, get_bucket_index_unique}

abbrev pub bucket_of : Histogram → ℕ → ℕ
bucket_of h value = get_bucket_index h (pos value)

-- the width of the entries of bucket `b`
abbrev pub width : Histogram → ℕ → ℕ
width h b = 2 ^ (b + h.unit_magnitude)

abbrev pub sub_bucket_of : Histogram → ℕ → ℕ
sub_bucket_of h value = value / width h (bucket_of h value)

-- Entry `s` of bucket `b` is `counts[i]`.
pub record IsAt (h : Histogram) (b s i : ℕ) : Type 0 where
  pub below : s < h.sub_bucket_count
  pub above : (b ≡ 0) ⊎ (h.sub_bucket_half_count ≤ s)
  pub index : i ≡ b * h.sub_bucket_half_count + s

abbrev pub index_of : Histogram → ℕ → ℕ
index_of h value = bucket_of h value * h.sub_bucket_half_count + sub_bucket_of h value

module _ {h : Histogram} (l : IsLaidOut h) where
  pub IsAt-index_of :
      (value : ℕ)
      → value < 2 ^ 63
      → IsAt h (bucket_of h value) (sub_bucket_of h value) (index_of h value)
  IsAt-index_of value small = record {
    below = (div-lt_iff_lt-mul one).1 v.below;
    above = elim v.above [
      | inl first ↦ inl first
      | inr start ↦ inr ((le-div_iff_mul-le one).1 start)
    ];
    index = refl;
  }
    where
      v : InBucket h value (bucket_of h value)
      v = InBucket-get_bucket_index l value small

      one : 0 < width h (bucket_of h value)
      one = pow2-pos _

  -- An entry of a later bucket comes later.
  bucket_order : {b s i c t j : ℕ} → IsAt h b s i → IsAt h c t j → b < c → i < j
  bucket_order {b} {c} p q lt = omega (
    arith,
    mul-suc-le b c h.sub_bucket_half_count lt,
    l.whole,
    p.below,
    q.above,
    p.index,
    q.index,
  )

  -- A place lies in the array exactly when its bucket exists.
  pub IsAt-bound : {b s i : ℕ} → IsAt h b s i → (b < h.bucket_count) ↔ (i < h.counts_len)
  IsAt-bound {b} {i} at = (forwards, λ lt. backwards (dec_lt b h.bucket_count) lt)
    where
      forwards : b < h.bucket_count → i < h.counts_len
      forwards lt =
          omega (arith, mul-suc-le b h.bucket_count h.sub_bucket_half_count lt, l.whole, l.room, at)

      backwards : Dec (b < h.bucket_count) → i < h.counts_len → b < h.bucket_count
      backwards (yes lt) p = lt
      backwards (no ge) p = absurd (
          omega (
            arith,
            mul-le_mul_right h.bucket_count b h.sub_bucket_half_count (omega arith),
            l.some_bucket,
            l.room,
            at.above,
            at.index,
          ))

  -- Places determine their indices, and the other way round.
  pub IsAt-unique : {b s c t i : ℕ} → IsAt h b s i → IsAt h c t i → (b ≡ c) × (s ≡ t)
  IsAt-unique {b} {s} {c} {t} {i} p q =
      (same, omega (arith, ap (λ (k : ℕ). k * h.sub_bucket_half_count) same))
    where
      same : b ≡ c
      same = elim (dec_lt b c) [
        | yes lt ↦ absurd (omega (arith, bucket_order p q lt))
        | no ge ↦ elim (dec_lt c b) [
          | yes gt ↦ absurd (omega (arith, bucket_order q p gt))
          | no le ↦ omega arith
        ]
      ]

  -- Entries follow one another: each ends no later than a later one starts.
  pub IsAt-ordered :
      {b s i c t j : ℕ} → IsAt h b s i → IsAt h c t j → i < j → (s + 1) * width h b ≤ t * width h c
  IsAt-ordered {b} {s} {c} {t} p q lt = elim (dec_lt b c) [
    | yes later ↦ omega (
      arith,
      mul-le_mul_right (s + 1) h.sub_bucket_count (width h b) (omega (arith, p.below)),
      ap (λ (k : ℕ). k * width h b) l.whole,
      ap (λ (k : ℕ). h.sub_bucket_half_count * k) (pow2-suc (b + h.unit_magnitude)),
      mul-le_mul_left h.sub_bucket_half_count (2 ^ suc (b + h.unit_magnitude)) (width h c)
          (pow2_mono _ _ (omega arith)),
      mul-le_mul_right h.sub_bucket_half_count t (width h c) (omega (arith, q.above)),
    )
    | no not_later ↦
        let same : b ≡ c = bucket_eq (dec_lt c b) not_later in
        rw same (
          mul-le_mul_right (s + 1) t (width h c)
            (omega (arith, p.index, q.index, ap (λ (k : ℕ). k * h.sub_bucket_half_count) same)))
  ]
    where
      bucket_eq : Dec (c < b) → ¬ (b < c) → b ≡ c
      bucket_eq (yes gt) ge = absurd (omega (arith, bucket_order q p gt))
      bucket_eq (no le) ge = omega arith

  -- A value inside an entry is counted in that entry.
  pub index_of-within :
      {b s i : ℕ} (x : ℕ)
      → IsAt h b s i
      → s * width h b ≤ x
      → x < (s + 1) * width h b
      → x < 2 ^ 63
      → (bucket_of h x ≡ b) × (sub_bucket_of h x ≡ s)
  index_of-within {b} {s} x p lo hi small =
      (bucket, ap (λ (k : ℕ). x / width h k) bucket ∙ div-eq_of_lt-le (width h b) lo hi)
    where
      inside : InBucket h x b
      inside = record {
        below = omega (arith, hi, mul-suc-le s h.sub_bucket_count (width h b) p.below);
        above = elim p.above [
          | inl first ↦ inl first
          | inr start ↦
              inr (omega (arith, lo, mul-le_mul_right h.sub_bucket_half_count s (width h b) start))
        ];
      }

      bucket : bucket_of h x ≡ b
      bucket = get_bucket_index_unique l x b small inside

  -- An entry's least value is counted in that entry.
  pub index_of-entry :
      {b s i : ℕ}
      → IsAt h b s i
      → s * width h b < 2 ^ 63
      → (bucket_of h (s * width h b) ≡ b) × (sub_bucket_of h (s * width h b) ≡ s)
  index_of-entry {b} {s} p small =
      index_of-within (s * width h b) p (omega arith)
        (omega (arith, pow2-pos (b + h.unit_magnitude))) small

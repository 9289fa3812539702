-- ===== src/Hdr/Init/Laws.antt =====
-- What hdr_init builds, and what hdr_reset keeps.
use native.Mathlib.Nat.{mul_assoc}
use native.Mathlib.Numerals.{add-one}
use weaver_dsb.Prelude.{
  ℕ, zero, suc, ◌+◌, ◌-◌, ◌*◌, ◌/◌, ◌^◌, ◌≤◌, ◌<◌, ◌≡◌, refl, sym, ◌↔◌, ap, ◌∙◌, Bool, true, some,
  arith, ◌⊎◌, inl, inr,
}
use weaver_dsb.Prelude.Tests.{ltb, Bool-cases}
use weaver_dsb.Prelude.Lists.{sum, length-replicate, sum-replicate}
use weaver_dsb.Bits.{bit_length, mul-pow2-suc, mul-le_mul_right, pow2-suc, pow2-pos, pow2-add}
use weaver_dsb.Hdr.{Histogram}
use weaver_dsb.Hdr.Layout.{IsLaidOut, capacity, IsLaidOut-counts}
use weaver_dsb.Hdr.Init.{
  floor_log2, buckets_loop, created, einval, half_magnitude, fresh, hdr_init, hdr_reset,
}

-- The invariant of every operation: the layout, and a total that is the sum of the counts.
pub record IsValid (h : Histogram) : Type 0 where
  pub laid_out : IsLaidOut h
  pub total : h.total_count ≡ sum h.counts

-- the half count is at least the largest value to be told apart to the unit
half_magnitude_lem :
    (s : ℕ) → 1 ≤ s → s ≤ 5 → (10 ^ s ≤ 2 ^ half_magnitude s) × (half_magnitude s ≤ 17)
unfolding half_magnitude bit_length
half_magnitude_lem zero lo hi = absurd (omega arith)
half_magnitude_lem (suc zero) lo hi = omega arith
half_magnitude_lem (suc (suc zero)) lo hi = omega arith
half_magnitude_lem (suc (suc (suc zero))) lo hi = omega arith
half_magnitude_lem (suc (suc (suc (suc zero)))) lo hi = omega arith
half_magnitude_lem (suc (suc (suc (suc (suc zero))))) lo hi = omega arith
half_magnitude_lem (suc (suc (suc (suc (suc (suc s)))))) lo hi = absurd (omega arith)

-- The bucket loop stops at the first doubling that reaches the highest value.
buckets_loop_lem :
    (k fuel t highest n : ℕ)
    → highest ≤ t * 2 ^ k
    → k < fuel
    → (j : ℕ) × (buckets_loop fuel t highest n ≡ some (n + j)) × (j ≤ k) × (highest ≤ t * 2 ^ j)
unfolding buckets_loop
buckets_loop_lem k zero t highest n h f = absurd (omega arith)
buckets_loop_lem zero (suc fuel) t highest n h f = (0, ground arith, omega arith, h)
buckets_loop_lem (suc k) (suc fuel) t highest n h f = elim (Bool-cases (ltb t highest)) [
  | inl more ↦
      let (j, e, le, reach) =
        buckets_loop_lem k fuel (t * 2) highest (n + 1) (omega (arith, h, mul-pow2-suc t k))
          (omega arith) in
      (
        suc j,
        rw more (e ∙ ap some (omega arith)),
        omega arith,
        omega (arith, reach, mul-pow2-suc t j),
      )
  | inr stop ↦ (0, rw stop (ap some (omega arith)), omega arith, ground arith)
]

-- The configuration that hdr_init accepts: one to five significant figures, a least value that is
-- positive, a mask that fits an int32_t, and a range that thirty doublings of the mask cover.
pub record IsSupported (lowest highest significant_figures : ℕ) : Type 0 where
  pub figures_min : 1 ≤ significant_figures
  pub figures_max : significant_figures ≤ 5
  pub positive : 1 ≤ lowest
  pub mask_fits : floor_log2 lowest + half_magnitude significant_figures + 1 ≤ 31
  pub range_fits : highest ≤ (2 ^ (half_magnitude significant_figures + 1) - 1) * 2 ^ 30

-- `h` is an empty histogram for the range that was asked for.
pub record IsFresh (lowest highest significant_figures : ℕ) (h : Histogram) : Type 0 where
  pub valid : IsValid h
  pub empty : h.total_count ≡ 0
  pub least : h.lowest_trackable_value ≡ lowest
  pub greatest : h.highest_trackable_value ≡ highest
  pub covers : highest < capacity h
  pub precise : 10 ^ significant_figures ≤ h.sub_bucket_half_count

one-add : (k : ℕ) → 1 + k ≡ suc k
one-add k = omega arith

cover : (a b c x : ℕ) → 1 ≤ a → 1 ≤ b → 1 ≤ c → x ≤ (2 * a - 1) * b * c → x < a * (2 * c * b)
cover zero b c x pa pb pc h = absurd (omega arith)
cover (suc a) b c x pa pb pc h =
    omega (arith, h, ap (λ (k : ℕ). k * b * c) (odd a), mul-le_mul_right 1 b c pb)
  where
    odd : (k : ℕ) → 2 * suc k - 1 ≡ 2 * k + 1
    odd k = omega arith

module _ {lowest highest figures : ℕ} (c : IsSupported lowest highest figures) where
  abbrev m : ℕ
  m = half_magnitude figures

  abbrev u : ℕ
  u = floor_log2 lowest

  abbrev mask : ℕ
  mask = (2 ^ (m + 1) - 1) * 2 ^ u

  ones : ℕ
  ones = 2 ^ (m + 1) - 1

  doubled : 2 ^ (m + 1) ≡ 2 * 2 ^ m
  doubled = omega (arith, pow2-suc m, ap (λ (k : ℕ). 2 ^ k) (add-one m))

  halved : 2 ^ (m + 1) / 2 ≡ 2 ^ m
  halved = omega (arith, doubled)

  -- thirty doublings reach the highest value
  range : highest ≤ mask * 2 ^ (30 - u)
  range =
      rw (mul_assoc, ← pow2-add)
        (omega (arith, c.range_fits, ap (λ (k : ℕ). (2 ^ (m + 1) - 1) * 2 ^ k) full))
    where
      full : u + (30 - u) ≡ 30
      full = omega (arith, c.mask_fits)

  covered : (j : ℕ) → highest ≤ mask * 2 ^ j → highest < 2 ^ (m + 1) / 2 * 2 ^ (1 + j + u)
  covered j reach =
      rw (halved, pow2-add, exponent)
        (cover (2 ^ m) (2 ^ u) (2 ^ j) highest (pow2-pos m) (pow2-pos u) (pow2-pos j)
          (omega (arith, reach, ap (λ (k : ℕ). (k - 1) * 2 ^ u * 2 ^ j) doubled)))
    where
      exponent : 2 ^ (1 + j) ≡ 2 * 2 ^ j
      exponent = omega (arith, pow2-suc j, ap (λ (k : ℕ). 2 ^ k) (one-add j))

  loop_stops :
      (j : ℕ) × (buckets_loop 64 mask highest 1 ≡ some (1 + j))
      × (j ≤ 30 - u)
      × (highest ≤ mask * 2 ^ j)
  loop_stops = buckets_loop_lem (30 - u) 64 mask highest 1 range (omega (arith, c.mask_fits))

  fresh-IsFresh :
      (j : ℕ)
      → j ≤ 30 - u
      → highest ≤ mask * 2 ^ j
      → IsFresh lowest highest figures (fresh lowest highest figures u (1 + j))
  unfolding fresh
  fresh-IsFresh j le reach = record {
    valid = record {
      laid_out = record {
        half = halved;
        whole = omega (arith, halved, doubled);
        mask = refl;
        some_bucket = omega arith;
        room = refl;
        mask_fits = c.mask_fits;
        shifts_fit = omega (arith, c.mask_fits);
        stored = length-replicate _ 0;
      };
      total = omega (arith, sum-replicate ((1 + j + 1) * (2 ^ (m + 1) / 2)));
    };
    empty = refl;
    least = refl;
    greatest = refl;
    covers = covered j reach;
    precise = omega (arith, halved, half_magnitude_lem figures c.figures_min c.figures_max);
  }

  -- For a supported configuration, and if there is memory, hdr_init fills in a valid, empty
  -- histogram that covers the range at the precision asked for.
  pub hdr_init-IsFresh :
      (h : Histogram) × (hdr_init lowest highest figures true ≡ created h)
      × IsFresh lowest highest figures h
  unfolding hdr_init
  hdr_init-IsFresh =
      let (j, e, le, reach) = loop_stops in
      (
        fresh lowest highest figures u (1 + j),
        ground (arith, e, c.figures_min, c.figures_max),
        fresh-IsFresh j le reach,
      )

-- hdr_init returns EINVAL exactly for a number of figures outside one to five, whatever the rest.
hdr_init-einval :
    (lowest highest figures : ℕ) (allocated : Bool)
    → (hdr_init lowest highest figures allocated ≡ einval) ↔ ((figures < 1) ⊎ (5 < figures))
unfolding hdr_init
hdr_init-einval lowest highest figures allocated = ground arith

-- hdr_reset keeps a valid histogram valid, and leaves nothing counted.
pub hdr_reset-IsValid :
    {h : Histogram} → IsValid h → IsValid (hdr_reset h) × ((hdr_reset h).total_count ≡ 0)
unfolding hdr_reset
hdr_reset-IsValid {h} v = (
  record {
    laid_out = IsLaidOut-counts v.laid_out 0 (length-replicate h.counts_len 0);
    total = sym (sum-replicate h.counts_len);
  },
  refl,
)

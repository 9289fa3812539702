-- ===== src/Hdr/Query/Mean.antt =====
-- hdr_mean of wrk2/src/hdr_histogram.c sums over the entries the count times the median value.
use weaver_dsb.Prelude.{
  ℕ, zero, suc, ◌+◌, ◌-◌, ◌*◌, ◌%◌, ◌^◌, ◌≤◌, ◌<◌, ◌≡◌, refl, sym, ap, ◌∙◌, arith, false,
  ℕ_discrete,
}
use weaver_dsb.Prelude.Tests.{◌==◌}
use weaver_dsb.Prelude.Lists.{get_or, sum-take-suc, sum-take-le, sum-take_mono}
use weaver_dsb.Prelude.Int.{ℤ, pos, as_int64}
use weaver_dsb.Prelude.Float.{Float}
use weaver_dsb.Prelude.Checked.{returned}
use weaver_dsb.Hdr.{Histogram, median_equivalent_value}
use weaver_dsb.Hdr.Init.Laws.{IsValid}
use weaver_dsb.Hdr.Iter.Loops.{Keeps, iter_loop_lem}
use weaver_dsb.Hdr.Iter.Values.{value_of}
use weaver_dsb.Hdr.Iter.Places.{count_before, visited}
use weaver_dsb.Hdr.Query.{mean_body, mean_total, hdr_mean}

-- the counts of the first `n` entries, each times the median of its values
unfoldable pub weighted : Histogram → ℕ → ℕ
weighted h zero = 0
weighted h (suc n) = weighted h n + get_or h.counts n 0 * median_equivalent_value h (value_of h n)

mod_step : (t w k : ℕ) → t ≡ w % 2 ^ 64 → (t + k) % 2 ^ 64 ≡ (w + k) % 2 ^ 64
mod_step t w k e = omega (arith, e)

-- what hdr_mean returns, the sum read as an int64_t
abbrev pub mean_of : (f : Float) → Histogram → f.Double
mean_of f h =
    f.over (f.times (f.of_ℤ (as_int64 (weighted h h.counts_len % 2 ^ 64))) (f.of_ℕ 1))
      (f.of_ℕ h.total_count)

module _ {h : Histogram} (v : IsValid h) where
  weighted_round :
      (i total : ℕ)
      → i < h.counts_len
      → count_before h i < h.total_count
      → total ≡ weighted h i % 2 ^ 64
      → Keeps
          (λ n t. t ≡ weighted h n % 2 ^ 64)
          (λ t. t ≡ weighted h h.counts_len % 2 ^ 64)
          (suc i)
          (mean_body h (visited h (suc i)) total)
  unfolding mean_body visited weighted
  weighted_round i total lt more e = elim (ℕ_discrete (get_or h.counts i 0) 0) [
    | yes z ↦ rw z (omega (arith, e))
    | no some_count ↦
        let test : (get_or h.counts i 0 == 0) ≡ false = ground arith in
        rw test (
          mod_step total (weighted h i)
            (get_or h.counts i 0 * median_equivalent_value h (value_of h i)) e)
  ]

  -- Entries with nothing in them add nothing.
  weighted_rest : (i k : ℕ) → h.total_count ≤ count_before h i → weighted h (i + k) ≡ weighted h i
  unfolding weighted
  weighted_rest i zero done = ap (weighted h) (omega arith)
  weighted_rest i (suc k) done =
      ap (weighted h) (shift i k)
      ∙ ap (λ (c : ℕ). weighted h (i + k) + c * median_equivalent_value h (value_of h (i + k)))
          nothing
      ∙ omega (arith, weighted_rest i k done)
    where
      shift : (a b : ℕ) → a + suc b ≡ suc (a + b)
      shift a b = omega arith

      nothing : get_or h.counts (i + k) 0 ≡ 0
      nothing = omega (
        arith,
        v.total,
        done,
        sum-take-suc h.counts (i + k),
        sum-take-le h.counts (suc (i + k)),
        sum-take_mono h.counts i (i + k) (omega arith),
      )

  -- The loop of hdr_mean ends, with the sum over all entries, modulo 2^64.
  mean_total_lem : mean_total h ≡ returned (weighted h h.counts_len % 2 ^ 64)
  unfolding mean_total weighted
  mean_total_lem =
      let (t, ran, e) =
        iter_loop_lem v (mean_body h) (λ n t. t ≡ weighted h n % 2 ^ 64)
          (λ t. t ≡ weighted h h.counts_len % 2 ^ 64) weighted_round finish 0 refl in
      ran ∙ ap returned e
    where
      finish :
          (i t : ℕ)
          → i ≤ h.counts_len
          → h.total_count ≤ count_before h i
          → t ≡ weighted h i % 2 ^ 64
          → t ≡ weighted h h.counts_len % 2 ^ 64
      finish i t le done e =
          e
          ∙ ap (λ (w : ℕ). w % 2 ^ 64)
              (sym (weighted_rest i (h.counts_len - i) done) ∙ ap (weighted h) (omega arith))

  -- hdr_mean ends, whatever the sum.
  pub hdr_mean-returns : (f : Float) → hdr_mean f h ≡ returned (mean_of f h)
  unfolding hdr_mean
  hdr_mean-returns f = rw mean_total_lem refl

  -- On a valid histogram of which the sum over all entries, of the count times the median value, is
  -- below 2^63, hdr_mean returns the quotient of that sum by the number of values.
  pub hdr_mean_lem :
      (f : Float)
      → weighted h h.counts_len < 2 ^ 63
      → hdr_mean f h
        ≡ returned (
            f.over
              (f.times (f.of_ℤ (pos (weighted h h.counts_len))) (f.of_ℕ 1))
              (f.of_ℕ h.total_count))
  hdr_mean_lem f small =
      let same : as_int64 (weighted h h.counts_len % 2 ^ 64) ≡ pos (weighted h h.counts_len) =
        int64_small (weighted h h.counts_len) small in
      hdr_mean-returns f
      ∙ ap (λ (z : ℤ). returned (f.over (f.times (f.of_ℤ z) (f.of_ℕ 1)) (f.of_ℕ h.total_count)))
          same
    where
      int64_small : (w : ℕ) → w < 2 ^ 63 → as_int64 (w % 2 ^ 64) ≡ pos w
      int64_small w lt =
          let word : w % 2 ^ 64 ≡ w = omega (arith, lt) in rw word (ground (arith, lt))

-- ===== src/Stats/Within.antt =====
-- The counts that stats_within_stdev of wrk2/src/stats.c reads from a histogram.
use weaver_dsb.Prelude.{ℕ, suc, ◌≤◌, ◌<◌, ◌≡◌, refl, inl, inr, arith, Bool, true, false}
use weaver_dsb.Prelude.Tests.{if◌then◌else◌, Bool-cases}
use weaver_dsb.Prelude.Lists.{sum-take-suc, sum-take-le}
use weaver_dsb.Prelude.Int.{ℤ, pos, ltb_ℤ}
use weaver_dsb.Prelude.Checked.{returned}
use weaver_dsb.Hdr.{Histogram, highest_equivalent_value}
use weaver_dsb.Hdr.Init.Laws.{IsValid}
use weaver_dsb.Hdr.Iter.Loops.{Keeps, iter_loop_lem}
use weaver_dsb.Hdr.Iter.Values.{value_of}
use weaver_dsb.Hdr.Iter.Places.{count_before, visited}
use weaver_dsb.Stats.Summary.{within_body, within_counts}

module _ {h : Histogram} (v : IsValid h) (lower_value upper_value : ℤ) where
  abbrev Counting : ℕ → ℕ × ℕ × Bool → Type 0
  Counting n (lower, upper, found) = (lower ≤ count_before h n) × (found ≡ false)

  abbrev Counted : ℕ × ℕ × Bool → Type 0
  Counted (lower, upper, found) =
      (lower ≤ (if found then upper else h.total_count))
      × ((if found then upper else h.total_count) ≤ h.total_count)

  before-le : (n : ℕ) → count_before h n ≤ h.total_count
  before-le n = omega (arith, v.total, sum-take-le h.counts n)

  lower_step :
      (i lower : ℕ) (b : Bool)
      → lower ≤ count_before h i
      → (if b then count_before h (suc i) else lower) ≤ count_before h (suc i)
  lower_step i lower true le = omega arith
  lower_step i lower false le = omega (arith, le, sum-take-suc h.counts i)

  within_round :
      (i : ℕ) (s : ℕ × ℕ × Bool)
      → i < h.counts_len
      → count_before h i < h.total_count
      → Counting i s
      → Keeps Counting Counted (suc i) (within_body lower_value upper_value (visited h (suc i)) s)
  unfolding within_body visited
  within_round i (lower, upper, found) lt more (le, not_found) =
      let step = lower_step i lower (ltb_ℤ (pos (value_of h i)) lower_value) le in
      elim (Bool-cases (ltb_ℤ upper_value (pos (highest_equivalent_value h (value_of h i))))) [
        | inl past ↦ rw past (step, before-le (suc i))
        | inr within ↦ rw within (step, not_found)
      ]

  -- On a valid histogram the loop of stats_within_stdev ends, and the count up to the lower bound
  -- is at most that up to the upper bound, which is at most the total.
  pub within_counts_lem :
      (r : ℕ × ℕ) × (within_counts h lower_value upper_value ≡ returned r)
      × (r.0 ≤ r.1)
      × (r.1 ≤ h.total_count)
  unfolding within_counts
  within_counts_lem =
      let (s, ran, c) =
        iter_loop_lem v (within_body lower_value upper_value) Counting Counted within_round finish
          (0, 0, false) (omega arith, refl) in
      ((s.0, if s.2 then s.1 else h.total_count), rw ran refl, c.0, c.1)
    where
      finish :
          (i : ℕ) (s : ℕ × ℕ × Bool)
          → i ≤ h.counts_len
          → h.total_count ≤ count_before h i
          → Counting i s
          → Counted s
      finish i (lower, upper, found) le done (small, not_found) =
          rw not_found (omega (arith, small, before-le i), omega arith)

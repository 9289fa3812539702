-- ===== src/Hdr/Iter/Recorded.antt =====
-- The recorded iterator goes from one counter that is not zero to the next.
use weaver_dsb.Prelude.{
  ℕ, zero, suc, ◌+◌, ◌≤◌, ◌<◌, ◌≡◌, refl, ◌∙◌, inl, inr, arith, ℕ_discrete, Bool, true, false,
}
use weaver_dsb.Prelude.Tests.{◌==◌, ltb, ltb→lt, Bool-cases}
use weaver_dsb.Prelude.Lists.{get_or, take, get_or-take-suc_zero, sum-take-suc}
use weaver_dsb.Prelude.Checked.{Checked, returned}
use weaver_dsb.Hdr.{Histogram}
use weaver_dsb.Hdr.Init.Laws.{IsValid}
use weaver_dsb.Hdr.Iter.{Iter, hdr_recorded_iter_next}
use weaver_dsb.Hdr.Iter.Places.{
  count_before, visited, visited-shown, hdr_iter_next-more, hdr_iter_next-done, more-lt,
}

-- what hdr_recorded_iter_next returns from the place `i`: the place it stops at, if there is one
pub data Next (h : Histogram) (i : ℕ) (r : Checked (Iter × Bool)) : Type 0 where
  found :
      (j : ℕ)
      → i ≤ j
      → j < h.counts_len
      → 0 < get_or h.counts j 0
      → ((k : ℕ) → get_or (take j h.counts) k 0 ≡ get_or (take i h.counts) k 0)
      → count_before h j ≡ count_before h i
      → r ≡ returned (visited h (suc j), true)
      → Next h i r
  finished :
      (j : ℕ)
      → j ≤ h.counts_len
      → h.total_count ≤ count_before h j
      → i ≤ j
      → ((k : ℕ) → get_or (take j h.counts) k 0 ≡ get_or (take i h.counts) k 0)
      → count_before h j ≡ count_before h i
      → r ≡ returned (visited h j, false)
      → Next h i r

module _ {h : Histogram} (v : IsValid h) where
  Next-skip :
      (i : ℕ) (r : Checked (Iter × Bool)) → get_or h.counts i 0 ≡ 0 → Next h (suc i) r → Next h i r
  Next-skip i r z (found j le lt c same n e) =
      found j (omega arith) lt c (λ k. same k ∙ get_or-take-suc_zero h.counts i k z)
        (omega (arith, n, z, sum-take-suc h.counts i)) e
  Next-skip i r z (finished j le done later same n e) =
      finished j le done (omega arith) (λ k. same k ∙ get_or-take-suc_zero h.counts i k z)
        (omega (arith, n, z, sum-take-suc h.counts i)) e

  pub recorded_next_lem :
      (fuel i : ℕ)
      → i ≤ h.counts_len
      → h.counts_len < i + fuel
      → Next h i (hdr_recorded_iter_next fuel h (visited h i))
  unfolding hdr_recorded_iter_next
  recorded_next_lem zero i le enough = absurd (omega arith)
  recorded_next_lem (suc fuel) i le enough =
      elim (Bool-cases (ltb (count_before h i) h.total_count)) [
        | inl more ↦
            let lt = more-lt v i le (ltb→lt _ _ more) in
            elim (ℕ_discrete (get_or h.counts i 0) 0) [
              | yes z ↦
                  let test : ((visited h (suc i)).count_at_index == 0) ≡ true =
                    rw ((visited-shown h i).0, z) refl in
                  Next-skip i _ z (
                    rw (hdr_iter_next-more v i le more)
                      (rw test (recorded_next_lem fuel (suc i) (omega arith) (omega arith))))
              | no some_count ↦
                  let test : ((visited h (suc i)).count_at_index == 0) ≡ false =
                    rw ((visited-shown h i).0) (ground arith) in
                  found i (omega arith) lt (omega arith) (λ k. refl) refl
                    (rw (hdr_iter_next-more v i le more) (rw test refl))
            ]
        | inr done ↦
            finished i le (ground (arith, done)) (omega arith) (λ k. refl) refl
              (rw (hdr_iter_next-done v i le done) refl)
      ]

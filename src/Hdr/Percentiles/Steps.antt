-- ===== src/Hdr/Percentiles/Steps.antt =====
-- A step of the percentile iterator of wrk2/src/hdr_histogram.c ends.
use weaver_dsb.Prelude.{ℕ, zero, suc, ◌+◌, ◌≤◌, ◌<◌, ◌≡◌, refl, Bool, true, false, inl, inr, arith}
use weaver_dsb.Prelude.Tests.{ltb, Bool-cases, ltb→lt}
use weaver_dsb.Prelude.Int.{pos}
use weaver_dsb.Prelude.Float.{Float}
use weaver_dsb.Prelude.Checked.{Checked, returned}
use weaver_dsb.Hdr.{Histogram}
use weaver_dsb.Hdr.Init.Laws.{IsValid}
use weaver_dsb.Hdr.Iter.{has_next, rounds}
use weaver_dsb.Hdr.Iter.Places.{
  visited, visited-sub, count_before, visited-count, hdr_iter_next-more, hdr_iter_next-done,
  more-lt,
}
use weaver_dsb.Hdr.Percentiles.{
  Percentiles, report, is_due, percentile_loop, start_percentiles, starts_before, last_percentile,
  hdr_percentile_iter_next,
}

-- What a step from a place leaves, while something is still to be counted: a report at a place
-- that is due, or the end, with everything counted behind it.
pub data IsStep (f : Float) (h : Histogram) (p : Percentiles f) (r : Checked (Percentiles f × Bool))
    : Type 0 where
  reported :
      (j : ℕ)
      → j ≤ h.counts_len
      → is_due f h (visited h j) p.percentile_to_iterate_to ≡ true
      → r ≡ returned (report f (record p { iter = visited h j }), true)
      → IsStep f h p r
  passed :
      (j : ℕ)
      → j ≤ h.counts_len
      → h.total_count ≤ count_before h j
      → r ≡ returned (record p { iter = visited h j }, true)
      → IsStep f h p r

module _ (f : Float) {h : Histogram} (v : IsValid h) where
  percentile_loop_lem :
      (fuel i : ℕ) (p : Percentiles f)
      → i ≤ h.counts_len
      → h.counts_len < i + fuel
      → IsStep f h p (percentile_loop f fuel h (record p { iter = visited h i }))
  unfolding percentile_loop
  percentile_loop_lem zero i p le enough = absurd (omega arith)
  percentile_loop_lem (suc fuel) i p le enough =
      elim (Bool-cases (is_due f h (visited h i) p.percentile_to_iterate_to)) [
        | inl due ↦ reported i le due (rw due refl)
        | inr early ↦ elim (Bool-cases (ltb (count_before h i) h.total_count)) [
          | inl more ↦
              let lt = more-lt v i le (ltb→lt _ _ more) in
              rw (early, hdr_iter_next-more v i le more)
                (percentile_loop_lem fuel (suc i) p lt (omega arith))
          | inr done ↦
              passed i le (ground (arith, done)) (rw (early, hdr_iter_next-done v i le done) refl)
        ]
      ]

  started_lem :
      (i s : ℕ) (p : Percentiles f)
      → (visited h (suc i)).sub_bucket_index ≡ pos s
      → start_percentiles f h (record p { iter = visited h (suc i) })
        ≡ returned (record p { iter = visited h (suc i) }, true)
  unfolding start_percentiles
  started_lem i s p e =
      let test : starts_before (visited h (suc i)).sub_bucket_index ≡ false = rw e refl in
      simp (test) refl

  -- the first step, from any place where something is left
  start_percentiles_lem :
      (i : ℕ) (p : Percentiles f)
      → i ≤ h.counts_len
      → ltb (count_before h i) h.total_count ≡ true
      → (j : ℕ) × (j ≤ h.counts_len)
        × (start_percentiles f h (record p { iter = visited h i })
            ≡ returned (record p { iter = visited h j }, true))
  unfolding start_percentiles visited
  start_percentiles_lem zero p le more =
      let first = hdr_iter_next-more v 0 le more in
      (1, more-lt v 0 le (ltb→lt _ _ more), rw first refl)
  start_percentiles_lem (suc i) p le more =
      let (s, e) = visited-sub v.laid_out i in (suc i, le, started_lem i s p e)

  pub hdr_percentile_iter_next-more :
      (i : ℕ) (p : Percentiles f)
      → i ≤ h.counts_len
      → ltb (count_before h i) h.total_count ≡ true
      → IsStep f h p (hdr_percentile_iter_next f h (record p { iter = visited h i }))
  unfolding hdr_percentile_iter_next has_next
  hdr_percentile_iter_next-more i p le more =
      let goes_on : ltb (visited h i).count_to_index h.total_count ≡ true =
        rw (visited-count h i) more in
      let (j, inside, ran) = start_percentiles_lem i p le more in
      rw (goes_on, ran) (percentile_loop_lem (rounds h) j p inside (omega (arith, inside)))

  pub hdr_percentile_iter_next-done :
      (i : ℕ) (p : Percentiles f)
      → ltb (count_before h i) h.total_count ≡ false
      → hdr_percentile_iter_next f h (record p { iter = visited h i })
        ≡ returned (last_percentile f (record p { iter = visited h i }))
  unfolding hdr_percentile_iter_next has_next
  hdr_percentile_iter_next-done i p done =
      let ends : ltb (visited h i).count_to_index h.total_count ≡ false =
        rw (visited-count h i) done in
      rw ends refl

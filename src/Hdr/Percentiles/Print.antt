-- ===== src/Hdr/Percentiles/Print.antt =====
-- hdr_percentiles_print of wrk2/src/hdr_histogram.c comes to an end.
use weaver_dsb.Prelude.{
  ℕ, zero, suc, ◌+◌, ◌≤◌, ◌<◌, ◌≡◌, refl, ap, ◌∙◌, Bool, true, false, inl, inr, List, [], ◌∷◌, ◌++◌,
  arith,
}
use weaver_dsb.Prelude.Tests.{ltb, Bool-cases, ltb→lt}
use weaver_dsb.Prelude.Lists.{length, sum-take-le}
use weaver_dsb.Prelude.Float.{Float}
use weaver_dsb.Prelude.Checked.{returned}
use weaver_dsb.Hdr.{Histogram}
use weaver_dsb.Hdr.Init.Laws.{IsValid}
use weaver_dsb.Hdr.Iter.Places.{visited, count_before, visited-count}
use weaver_dsb.Hdr.Query.Mean.{mean_of, hdr_mean-returns}
use weaver_dsb.Hdr.Query.Extremes.{hdr_max_lem}
use weaver_dsb.Hdr.Query.Deviation.{hdr_stddev-returns}
use weaver_dsb.Hdr.Percentiles.{
  Footer, Percentiles, Format, classic, csv, hdr_percentile_iter_init, footer_of, print_footer,
  hdr_percentiles_print, report, is_due, next_percentile, last_percentile, Row, row_of, rows_loop,
  hdr_percentile_iter_next,
}
use weaver_dsb.Hdr.Percentiles.Steps.{
  reported, passed, hdr_percentile_iter_next-more, hdr_percentile_iter_next-done,
}

-- The rows come to their end with the row of 100 percent and of all that is counted, or a write
-- failed.
pub data IsWritten (f : Float) (h : Histogram) (r : List (Row f) × Bool) : Type 0 where
  complete :
      (before : List (Row f)) (last : Row f)
      → r ≡ (before ++ (last ∷ []), false)
      → last.total_count ≡ h.total_count
      → last.percentile ≡ f.over (f.of_ℕ 100) (f.of_ℕ 100)
      → IsWritten f h r
  cut : r.1 ≡ true → IsWritten f h r

-- A measure of the levels that goes down with each level that is reported while something is left to
-- be counted. There a level that is due lies below 100 by at least 100 / total_count, so that the
-- doubles of C, with 5 ticks and a total below 2^48, still tell the next level from it. Once
-- everything is counted the iterator ends by itself, and nothing is asked of the levels.
pub record IsProgress (f : Float) (h : Histogram) (ticks : ℕ) (rank : f.Double → ℕ) : Type 0 where
  pub goes_down :
      (i : ℕ) (to : f.Double)
      → i ≤ h.counts_len
      → count_before h i < h.total_count
      → is_due f h (visited h i) to ≡ true
      → rank (next_percentile f ticks to) < rank to

module _ (f : Float) {h : Histogram} (v : IsValid h) (accepts : ℕ → Bool) (scale : f.Double) where
  everything :
      (i : ℕ) → ltb (count_before h i) h.total_count ≡ false → count_before h i ≡ h.total_count
  everything i done =
      let all : h.total_count ≤ count_before h i = ground (arith, done) in
      omega (arith, all, v.total, sum-take-le h.counts i)

  ended :
      (i : ℕ) (p : Percentiles f) (fuel : ℕ) (rows : List (Row f))
      → ltb (count_before h i) h.total_count ≡ false
      → p.seen_last_value ≡ true
      → rows_loop f accepts scale (suc fuel) h (record p { iter = visited h i }) rows
        ≡ returned (rows, false)
  unfolding rows_loop last_percentile
  ended i p fuel rows done seen = rw (hdr_percentile_iter_next-done f v i p done, seen) refl

  last_row :
      (i : ℕ) (p : Percentiles f) (fuel : ℕ) (rows : List (Row f))
      → ltb (count_before h i) h.total_count ≡ false
      → p.seen_last_value ≡ false
      → (r : List (Row f) × Bool) × (rows_loop f accepts scale
            (suc (suc fuel))
            h
            (record p { iter = visited h i })
            rows
          ≡ returned r)
        × IsWritten f h r
  unfolding rows_loop last_percentile row_of
  last_row i p fuel rows done unseen =
      let q : Percentiles f = record p {
        iter = visited h i;
        seen_last_value = true;
        percentile = f.of_ℕ 100;
      } in
      let step = hdr_percentile_iter_next-done f v i p done in
      let stop = ended i q fuel (rows ++ (row_of f scale q ∷ [])) done refl in
      elim (Bool-cases (accepts (suc (length rows)))) [
        | inl written ↦ (
          (rows ++ (row_of f scale q ∷ []), false),
          rw (step, unseen, written) stop,
          complete rows (row_of f scale q) refl (visited-count h i ∙ everything i done) refl,
        )
        | inr failed ↦ ((rows, true), rw (step, unseen, failed) refl, cut refl)
      ]

  module _ (ticks : ℕ) (rank : f.Double → ℕ) (progress : IsProgress f h ticks rank) where
    -- the rest of the loop after a row
    after_row :
        (fuel : ℕ) (p q : Percentiles f) (rows : List (Row f))
        → hdr_percentile_iter_next f h p ≡ returned (q, true)
        → ((rows' : List (Row f))
            → (r : List (Row f) × Bool) × (rows_loop f accepts scale fuel h q rows' ≡ returned r)
              × IsWritten f h r)
        → (r : List (Row f) × Bool) × (rows_loop f accepts scale (suc fuel) h p rows ≡ returned r)
          × IsWritten f h r
    unfolding rows_loop
    after_row fuel p q rows step rest =
        let (r, ran, w) = rest (rows ++ (row_of f scale q ∷ [])) in
        elim (Bool-cases (accepts (suc (length rows)))) [
          | inl written ↦ (r, rw (step, written) ran, w)
          | inr failed ↦ ((rows, true), rw (step, failed) refl, cut refl)
        ]

    rows_loop_lem :
        (fuel i : ℕ) (p : Percentiles f) (rows : List (Row f))
        → i ≤ h.counts_len
        → p.seen_last_value ≡ false
        → p.ticks_per_half_distance ≡ ticks
        → rank p.percentile_to_iterate_to + 3 ≤ fuel
        → (r : List (Row f) × Bool) × (rows_loop f accepts scale fuel h
              (record p { iter = visited h i })
              rows
            ≡ returned r)
          × IsWritten f h r
    rows_loop_lem zero i p rows le unseen same enough = absurd (omega arith)
    rows_loop_lem (suc zero) i p rows le unseen same enough = absurd (omega arith)
    rows_loop_lem (suc (suc zero)) i p rows le unseen same enough = absurd (omega arith)
    rows_loop_lem (suc (suc (suc fuel))) i p rows le unseen same enough =
        elim (Bool-cases (ltb (count_before h i) h.total_count)) [
          | inr done ↦ last_row i p (suc fuel) rows done unseen
          | inl more ↦ elim (hdr_percentile_iter_next-more f v i p le more) [
            | reported j inside due step ↦
                after_row (suc (suc fuel)) (record p { iter = visited h i })
                  (report f (record p { iter = visited h j })) rows step
                  (λ rows'. elim (Bool-cases (ltb (count_before h j) h.total_count)) [
                    | inr done ↦
                        last_row j (report f (record p { iter = visited h j })) fuel rows' done
                          unseen
                    | inl left ↦
                        rows_loop_lem (suc (suc fuel)) j
                          (report f (record p { iter = visited h j })) rows' inside unseen same
                          (omega (
                            arith,
                            enough,
                            progress.goes_down j p.percentile_to_iterate_to inside (ltb→lt _ _ left)
                                due,
                            ap (λ (k : ℕ). rank (next_percentile f k p.percentile_to_iterate_to))
                                same,
                          ))
                  ])
            | passed j inside all step ↦
                after_row (suc (suc fuel)) (record p { iter = visited h i })
                  (record p { iter = visited h j }) rows step
                  (λ rows'.
                    last_row j (record p { iter = visited h j }) fuel rows' (ground (arith, all))
                      unseen)
          ]
        ]

    footer_of-returns : (x : Footer f) × (footer_of f scale h ≡ returned x)
    unfolding footer_of
    footer_of-returns =
        let (deviation, ran) = hdr_stddev-returns f v in
        let (greatest, found, _) = hdr_max_lem v in
        (
          (f.over (mean_of f h) scale, f.over deviation scale, f.over (f.of_ℕ greatest) scale),
          rw (hdr_mean-returns v f, ran, found) refl,
        )

    -- what the footer makes of the rows
    with_footer :
        (format : Format) (r : List (Row f) × Bool)
        → IsWritten f h r
        → (r' : List (Row f) × Bool) × (print_footer f accepts scale format h r ≡ returned r')
          × IsWritten f h r'
    unfolding print_footer
    with_footer csv r w = (r, refl, w)
    with_footer classic r (cut e) = ((r.0, true), rw e refl, cut refl)
    with_footer classic r (complete before last e total whole) =
        let (x, ran) = footer_of-returns in
        elim (Bool-cases (accepts (suc (length (before ++ (last ∷ [])))))) [
          | inl written ↦ (
            (before ++ (last ∷ []), false),
            rw (e, ran, written) refl,
            complete before last refl total whole,
          )
          | inr failed ↦ ((before ++ (last ∷ []), true), rw (e, ran, failed) refl, cut refl)
        ]

    -- On a valid histogram, for an arithmetic in which each level that is reported, while
    -- something is left to be counted, takes a measure down, hdr_percentiles_print comes to an
    -- end, on fuel of the measure of 0 and 3: it answers EIO, as it does where a write fails, or
    -- it has written all rows, and the last is that of 100 percent and of all that is counted.
    pub hdr_percentiles_print_lem :
        (format : Format)
        → (r : List (Row f) × Bool) × (hdr_percentiles_print f accepts ticks scale format
              (rank (f.of_ℕ 0) + 3)
              h
            ≡ returned r)
          × IsWritten f h r
    unfolding hdr_percentiles_print hdr_percentile_iter_init visited
    hdr_percentiles_print_lem format = elim (Bool-cases (accepts 0)) [
      | inr failed ↦ (([], true), rw failed refl, cut refl)
      | inl begun ↦
          let (r, ran, w) =
            rows_loop_lem (rank (f.of_ℕ 0) + 3) 0 (hdr_percentile_iter_init f ticks) []
              (omega arith) refl refl (omega arith) in
          let looped : rows_loop f accepts scale (rank (f.of_ℕ 0) + 3) h
                (hdr_percentile_iter_init f ticks) []
              ≡ returned r =
            ran in
          let (r', printed, w') = with_footer format r w in (r', rw (begun, looped) printed, w')
    ]

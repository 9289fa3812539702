-- ===== src/Hdr/Query/Percentile.antt =====
-- hdr_value_at_percentile gives the value of a rank: enough values are recorded up to it, and too
-- few below it.
use weaver_dsb.Prelude.{ℕ, suc, ◌+◌, ◌^◌, ◌≤◌, ◌<◌, ◌≡◌, refl, ap, ◌∙◌, arith, dec_le, true, false}
use weaver_dsb.Prelude.Tests.{leb}
use weaver_dsb.Prelude.Lists.{get_or, sum-take-suc, sum-take-le}
use weaver_dsb.Prelude.Float.{Float}
use weaver_dsb.Prelude.Checked.{returned}
use weaver_dsb.Hdr.{Histogram, lowest_equivalent_value, highest_equivalent_value}
use weaver_dsb.Hdr.Index.{index_of}
use weaver_dsb.Hdr.Equivalent.{index_of-highest, lowest-highest}
use weaver_dsb.Hdr.Init.Laws.{IsValid}
use weaver_dsb.Hdr.Iter.Loops.{Keeps, iter_loop_lem}
use weaver_dsb.Hdr.Iter.Values.{value_of, highest-value_of-lt, lowest-value_of, index_of-value_of}
use weaver_dsb.Hdr.Iter.Places.{count_before, visited}
use weaver_dsb.Hdr.Query.{
  value_at_rank, percentile_body, count_at_percentile, hdr_value_at_percentile,
}
use weaver_dsb.Hdr.Query.Entries.{fits}

-- how many recorded values lie in entries before that of `x`, and up to and in it
abbrev pub recorded_below : Histogram → ℕ → ℕ
recorded_below h x = count_before h (index_of h x)

abbrev pub recorded_up_to : Histogram → ℕ → ℕ
recorded_up_to h x = count_before h (suc (index_of h x))

-- `answer` is the greatest value equivalent to the recorded value of rank `rank`; it is 0 if fewer
-- values are recorded.
pub record IsRanked (h : Histogram) (rank answer : ℕ) : Type 0 where
  pub enough : rank ≤ h.total_count → rank ≤ recorded_up_to h answer
  pub too_few : rank ≤ h.total_count → recorded_below h answer < rank
  pub greatest :
      rank ≤ h.total_count → highest_equivalent_value h (lowest_equivalent_value h answer) ≡ answer
  pub none_such : h.total_count < rank → answer ≡ 0

module _ {h : Histogram} (v : IsValid h) (rank : ℕ) (one : 1 ≤ rank) where
  abbrev Sought : ℕ → ℕ × ℕ → Type 0
  Sought n (total, answer) = (total ≡ count_before h n) × (count_before h n < rank) × (answer ≡ 0)

  abbrev Ranked : ℕ × ℕ → Type 0
  Ranked (total, answer) = IsRanked h rank answer

  IsRanked-at :
      (i : ℕ)
      → i < h.counts_len
      → count_before h i < rank
      → rank ≤ count_before h (suc i)
      → IsRanked h rank (highest_equivalent_value h (value_of h i))
  IsRanked-at i lt below reached = record {
    enough = λ _. rw place reached;
    too_few = λ _. rw place below;
    greatest = λ _. ap (highest_equivalent_value h) (
        lowest-highest v.laid_out (value_of h i) (fits v i lt)
          (rw (index_of-value_of v.laid_out i lt) lt) top
        ∙ lowest-value_of v.laid_out i lt);
    none_such = λ few. absurd (omega (arith, few, reached, v.total, sum-take-le h.counts (suc i)));
  }
    where
      top : highest_equivalent_value h (value_of h i) < 2 ^ 63
      top = omega (arith, highest-value_of-lt v.laid_out i lt)

      place : index_of h (highest_equivalent_value h (value_of h i)) ≡ i
      place =
          index_of-highest v.laid_out (value_of h i) (fits v i lt)
            (rw (index_of-value_of v.laid_out i lt) lt) top
          ∙ index_of-value_of v.laid_out i lt

  rank_round :
      (i : ℕ) (s : ℕ × ℕ)
      → i < h.counts_len
      → count_before h i < h.total_count
      → Sought i s
      → Keeps Sought Ranked (suc i) (percentile_body h rank (visited h (suc i)) s)
  unfolding percentile_body visited
  rank_round i (total, answer) lt more (e, few, z) = elim (dec_le rank (count_before h (suc i))) [
    | yes reached ↦
        let test : leb rank (total + get_or h.counts i 0) ≡ true =
          ground (arith, e, reached, sum-take-suc h.counts i) in
        rw test (IsRanked-at i lt few reached)
    | no not_yet ↦
        let test : leb rank (total + get_or h.counts i 0) ≡ false =
          ground (arith, e, sum-take-suc h.counts i) in
        rw test (omega (arith, e, sum-take-suc h.counts i), omega arith, z)
  ]

  -- On a valid histogram the loop ends, for a rank from one on, with the greatest value equivalent
  -- to the recorded value of that rank, or with 0 if fewer values are recorded.
  pub value_at_rank_lem :
      (answer : ℕ) × (value_at_rank h rank ≡ returned answer) × IsRanked h rank answer
  unfolding value_at_rank
  value_at_rank_lem =
      let (s, e, r) =
        iter_loop_lem v (percentile_body h rank) Sought Ranked rank_round finish (0, 0)
          (refl, omega (arith, one), refl) in
      (s.1, rw e refl, r)
    where
      finish :
          (i : ℕ) (s : ℕ × ℕ)
          → i ≤ h.counts_len
          → h.total_count ≤ count_before h i
          → Sought i s
          → Ranked s
      finish i (total, answer) le done (e, few, z) = record {
        enough = λ some_left. absurd (omega arith);
        too_few = λ some_left. absurd (omega arith);
        greatest = λ some_left. absurd (omega arith);
        none_such = λ _. z;
      }

module _ (f : Float) {h : Histogram} (v : IsValid h) (percentile : f.Double) where
  count_at_percentile-pos : 1 ≤ count_at_percentile f h percentile
  unfolding count_at_percentile
  count_at_percentile-pos = ground arith

  -- Whatever the arithmetic, hdr_value_at_percentile of a valid histogram returns, with the
  -- greatest value equivalent to the recorded value of the rank that it computes, or 0 past the
  -- last rank.
  pub hdr_value_at_percentile_lem :
      (answer : ℕ) × (hdr_value_at_percentile f h percentile ≡ returned answer)
      × IsRanked h (count_at_percentile f h percentile) answer
  unfolding hdr_value_at_percentile
  hdr_value_at_percentile_lem =
      value_at_rank_lem v (count_at_percentile f h percentile) count_at_percentile-pos

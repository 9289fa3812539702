-- ===== src/Hdr/Iter/Places.antt =====
-- Where the iterator stands after a number of steps, and what it shows there.
use weaver_dsb.Prelude.{ℕ, zero, suc, ◌≤◌, ◌<◌, ◌≡◌, refl, inl, inr, true, false, arith, dec_lt}
use weaver_dsb.Prelude.Tests.{ltb, if◌then◌else◌, lt→ltb, ltb→lt, Bool-cases}
use weaver_dsb.Prelude.Lists.{get_or, take, sum, sum-take-suc, sum-take-all}
use weaver_dsb.Prelude.Int.{ℤ, pos, pos_part}
use weaver_dsb.Prelude.Checked.{returned}
use weaver_dsb.Hdr.{
  Histogram, counts_index, get_count_at_index, value_from_index, highest_equivalent_value,
}
use weaver_dsb.Hdr.Layout.{IsLaidOut}
use weaver_dsb.Hdr.Index.{IsAt-bound}
use weaver_dsb.Hdr.Capacity.{counts_index_lem}
use weaver_dsb.Hdr.Init.Laws.{IsValid}
use weaver_dsb.Hdr.Iter.{Iter, increment_bucket, move_next, hdr_iter_init, hdr_iter_next}
use weaver_dsb.Hdr.Iter.Values.{place, value_of, IsPlace, place_lem}

-- the values counted before `counts[i]`
abbrev pub count_before : Histogram → ℕ → ℕ
count_before h i = sum (take i h.counts)

-- the iterator after `n` steps
unfoldable pub visited : Histogram → ℕ → Iter
visited h zero = hdr_iter_init
visited h (suc i) = record {
  bucket_index = (place h (suc i)).0;
  sub_bucket_index = (place h (suc i)).1;
  count_at_index = get_or h.counts i 0;
  count_to_index = count_before h (suc i);
  value_from_index = value_of h i;
  highest_equivalent_value = highest_equivalent_value h (value_of h i);
}

module _ {h : Histogram} (l : IsLaidOut h) where
  -- After the first step the index of the sub-bucket is not negative.
  pub visited-sub : (i : ℕ) → (s : ℕ) × ((visited h (suc i)).sub_bucket_index ≡ pos s)
  unfolding visited
  visited-sub i = ((place_lem l i).sub, (place_lem l i).sub-eq)

  move_next_from :
      (i : ℕ) (iter : Iter) (p : ℕ × ℤ)
      → i < h.counts_len
      → increment_bucket h (iter.bucket_index, iter.sub_bucket_index) ≡ p
      → IsPlace h i p
      → iter.count_to_index ≡ count_before h i
      → move_next h iter
        ≡ returned (
          record {
            bucket_index = p.0;
            sub_bucket_index = p.1;
            count_at_index = get_or h.counts i 0;
            count_to_index = count_before h (suc i);
            value_from_index = value_from_index p.0 (pos_part p.1) h.unit_magnitude;
            highest_equivalent_value =
                highest_equivalent_value h (value_from_index p.0 (pos_part p.1) h.unit_magnitude);
          },
          true,
        )
  unfolding move_next get_count_at_index
  move_next_from i iter p lt e at before =
      let room : ltb p.0 h.bucket_count ≡ true = lt→ltb _ _ ((IsAt-bound l at.at).1 lt) in
      let found : counts_index h p.0 p.1 ≡ returned (pos i) =
        rw at.sub-eq (counts_index_lem l at.at lt) in
      rw (e, room, found) (ground (arith, before, sum-take-suc h.counts i))

  pub move_next_lem :
      (i : ℕ) → i < h.counts_len → move_next h (visited h i) ≡ returned (visited h (suc i), true)
  unfolding visited place value_of
  move_next_lem zero lt = move_next_from zero _ _ lt refl (place_lem l zero) refl
  move_next_lem (suc i) lt = move_next_from (suc i) _ _ lt refl (place_lem l (suc i)) refl

module _ {h : Histogram} (l : IsLaidOut h) where
  move_next-past :
      (i : ℕ) (iter : Iter) (p : ℕ × ℤ)
      → h.counts_len ≤ i
      → increment_bucket h (iter.bucket_index, iter.sub_bucket_index) ≡ p
      → IsPlace h i p
      → move_next h iter
        ≡ returned (record iter { bucket_index = p.0; sub_bucket_index = p.1 }, false)
  unfolding move_next
  move_next-past i iter p ge e at =
      let bound : ¬ (p.0 < h.bucket_count) =
        λ few. absurd (omega (arith, ge, (IsAt-bound l at.at).0 few)) in
      let full : ltb p.0 h.bucket_count ≡ false = ground (arith, bound) in rw (e, full) refl

  -- After the last counter the iterator does not move on.
  pub move_next-last :
      (i : ℕ)
      → h.counts_len ≤ i
      → (iter : Iter) × (move_next h (visited h i) ≡ returned (iter, false))
  unfolding visited place
  move_next-last zero ge = (_, move_next-past zero hdr_iter_init _ ge refl (place_lem l zero))
  move_next-last (suc i) ge =
      (_, move_next-past (suc i) (visited h (suc i)) _ ge refl (place_lem l (suc i)))

pub visited-count : (h : Histogram) (i : ℕ) → (visited h i).count_to_index ≡ count_before h i
unfolding visited
visited-count h zero = refl
visited-count h (suc i) = refl

pub visited-shown :
    (h : Histogram) (i : ℕ)
    → ((visited h (suc i)).count_at_index ≡ get_or h.counts i 0)
      × ((visited h (suc i)).value_from_index ≡ value_of h i)
unfolding visited
visited-shown h i = (refl, refl)

module _ {h : Histogram} (v : IsValid h) where
  -- Something is left to be counted only at a counter of the array.
  pub more-lt : (i : ℕ) → i ≤ h.counts_len → count_before h i < h.total_count → i < h.counts_len
  more-lt i le more = elim (dec_lt i h.counts_len) [
    | yes lt ↦ lt
    | no ge ↦ absurd (
        omega (
          arith,
          more,
          v.total,
          v.laid_out.stored,
          sum-take-all h.counts i (omega (arith, v.laid_out.stored)),
        ))
  ]

  -- On a valid histogram, from any place inside it, hdr_iter_next moves on to the next counter
  -- while something is still to be counted, and otherwise reports the end and stays.
  pub hdr_iter_next_lem :
      (i : ℕ)
      → i ≤ h.counts_len
      → hdr_iter_next h (visited h i)
        ≡ returned (
            if ltb (count_before h i) h.total_count
            then (visited h (suc i), true)
            else (visited h i, false))
  unfolding hdr_iter_next
  hdr_iter_next_lem i le = elim (Bool-cases (ltb (count_before h i) h.total_count)) [
    | inl more ↦
        let goes_on : ltb (visited h i).count_to_index h.total_count ≡ true =
          rw (visited-count h i) more in
        rw (goes_on, more, move_next_lem v.laid_out i (more-lt i le (ltb→lt _ _ more))) refl
    | inr done ↦
        let ends : ltb (visited h i).count_to_index h.total_count ≡ false =
          rw (visited-count h i) done in
        rw (ends, done) refl
  ]

  pub hdr_iter_next-more :
      (i : ℕ)
      → i ≤ h.counts_len
      → ltb (count_before h i) h.total_count ≡ true
      → hdr_iter_next h (visited h i) ≡ returned (visited h (suc i), true)
  hdr_iter_next-more i le more = rw (hdr_iter_next_lem i le, more) refl

  pub hdr_iter_next-done :
      (i : ℕ)
      → i ≤ h.counts_len
      → ltb (count_before h i) h.total_count ≡ false
      → hdr_iter_next h (visited h i) ≡ returned (visited h i, false)
  hdr_iter_next-done i le done = rw (hdr_iter_next_lem i le, done) refl

-- ===== src/Hdr/Linear/Steps.antt =====
-- A step of the linear or the logarithmic iterator ends, and adds up the counters that it passes.
use weaver_dsb.Prelude.{
  ℕ, zero, suc, ◌+◌, ◌≤◌, ◌<◌, ◌≡◌, refl, ap, ◌∙◌, Bool, true, false, ◌||◌, ◌⊎◌, inl, inr, arith,
  dec_lt,
}
use weaver_dsb.Prelude.Tests.{ltb, leb, Bool-cases}
use weaver_dsb.Prelude.Lists.{sum-take-suc, sum-take-all}
use weaver_dsb.Prelude.Checked.{returned}
use weaver_dsb.Hdr.{Histogram}
use weaver_dsb.Hdr.Init.Laws.{IsValid}
use weaver_dsb.Hdr.Iter.{Iter, move_next, rounds, has_next, peek_next_value_from_index}
use weaver_dsb.Hdr.Iter.Places.{
  visited, count_before, visited-shown, visited-count, move_next_lem, move_next-last,
}
use weaver_dsb.Hdr.Linear.{Levels, next_level, moved, levels_loop, levels_next}

-- Where a step from place `i` ended: it moved on to place `to` and shows a value that has reached
-- the level, or it reports the end and has passed everything that is counted.
pub record IsStepped (h : Histogram) (i added level : ℕ) (r : Levels × Bool) : Type 0 where
  pub to : ℕ
  pub onward : i ≤ to
  pub inside : to ≤ h.counts_len
  pub counts : r.0.count_added_in_this_iteration_step + count_before h i ≡ added + count_before h to
  pub ends :
      ((r.1 ≡ true) × (r.0.iter ≡ visited h to) × (level ≤ (visited h to).value_from_index))
      ⊎ ((r.1 ≡ false) × (h.total_count ≤ count_before h to))

first_false : (a b : Bool) → (a || b) ≡ false → a ≡ false
first_false true b e = absurd (cc e)
first_false false b e = refl

nothing_left :
    (h : Histogram) (i : ℕ) (iter : Iter) (b : Bool)
    → iter ≡ visited h i
    → (has_next h iter || b) ≡ false
    → h.total_count ≤ count_before h i
unfolding has_next
nothing_left h i iter b e done =
    let all : ltb iter.count_to_index h.total_count ≡ false = first_false _ b done in
    ground (arith, all, ap (λ (k : Iter). k.count_to_index) e, visited-count h i)

module _ {h : Histogram} (v : IsValid h) (step : ℕ → ℕ) where
  levels_loop_lem :
      (fuel i : ℕ) (x : Levels)
      → i ≤ h.counts_len
      → h.counts_len < i + fuel
      → x.iter ≡ visited h i
      → (r : Levels × Bool) × (levels_loop fuel step h x ≡ returned r)
        × IsStepped h i x.count_added_in_this_iteration_step
            x.next_value_reporting_level_lowest_equivalent r
  unfolding levels_loop
  levels_loop_lem zero i x le enough e = absurd (omega arith)
  levels_loop_lem (suc fuel) i x le enough e =
      elim (Bool-cases
        (leb x.next_value_reporting_level_lowest_equivalent x.iter.value_from_index)) [
          | inl reached ↦ (
            (next_level step h x, true),
            rw reached refl,
            record {
              to = i;
              onward = omega arith;
              inside = le;
              counts = refl;
              ends =
                  inl (refl, e, ground (arith, reached, ap (λ (k : Iter). k.value_from_index) e));
            },
          )
          | inr below ↦ elim (dec_lt i h.counts_len) [
            | yes lt ↦
                let ran : move_next h x.iter ≡ returned (visited h (suc i), true) =
                  ap (move_next h) e ∙ move_next_lem v.laid_out i lt in
                let (r, went, s) =
                  levels_loop_lem fuel (suc i) (moved x (visited h (suc i))) lt (omega arith)
                    refl in
                (
                  r,
                  rw (below, ran) went,
                  record {
                    to = s.to;
                    onward = omega (arith, s.onward);
                    inside = s.inside;
                    counts =
                        omega (arith, s.counts, (visited-shown h i).0, sum-take-suc h.counts i);
                    ends = s.ends;
                  },
                )
            | no last ↦
                let (iter, ran) = move_next-last v.laid_out i (omega (arith, last)) in
                (
                  (record x { iter = iter }, false),
                  rw (below, ap (move_next h) e ∙ ran) refl,
                  record {
                    to = i;
                    onward = omega arith;
                    inside = le;
                    counts = refl;
                    ends = inr (
                      refl,
                      omega (
                        arith,
                        v.total,
                        sum-take-all h.counts i (omega (arith, v.laid_out.stored, last)),
                      ),
                    );
                  },
                )
          ]
        ]

  -- On a valid histogram, from any place inside it, a step of either iterator returns. It moves on
  -- and not back, and the count that it reports is that of the counters that it passed. Either it
  -- reports true, and shows a value that has reached the level; or it reports false, and
  -- everything that is counted lies behind it.
  pub levels_next_lem :
      (i : ℕ) (x : Levels)
      → i ≤ h.counts_len
      → x.iter ≡ visited h i
      → (r : Levels × Bool) × (levels_next step h x ≡ returned r)
        × IsStepped h i 0 x.next_value_reporting_level_lowest_equivalent r
  unfolding levels_next
  levels_next_lem i x le e =
      elim (Bool-cases (
        has_next h x.iter
        || ltb x.next_value_reporting_level_lowest_equivalent
            (peek_next_value_from_index h x.iter))) [
              | inl more ↦
                  let (r, ran, s) =
                    levels_loop_lem (rounds h) i
                      (record x { count_added_in_this_iteration_step = 0 }) le (omega arith) e in
                  (r, rw more ran, s)
              | inr done ↦ (
                (record x { count_added_in_this_iteration_step = 0 }, false),
                rw done refl,
                record {
                  to = i;
                  onward = omega arith;
                  inside = le;
                  counts = refl;
                  ends = inr (refl, nothing_left h i x.iter _ e done);
                },
              )
            ]

-- ===== src/Hdr/Add/Laws.antt =====
-- Merging two histograms of one layout adds them counter by counter and drops nothing.
use weaver_dsb.Prelude.{
  ℕ, zero, suc, ◌+◌, ◌^◌, ◌≤◌, ◌<◌, ◌≡◌, refl, sym, ap, ◌∙◌, arith, List, ℕ_discrete, true,
}
use weaver_dsb.Prelude.Lists.{
  get_or, set, take, sum, sum-take-suc, sum-take-all, sum-take-le, get_or-set_self, get_or-set_ne,
  get_or-take_at, get_or-take-suc_self, get_or-take-suc_ne, get_or-take_rest, take-all,
}
use weaver_dsb.Prelude.Int.{pos}
use weaver_dsb.Prelude.Checked.{returned}
use weaver_dsb.Hdr.{Histogram}
use weaver_dsb.Hdr.Index.{index_of}
use weaver_dsb.Hdr.Capacity.{capacity_iff}
use weaver_dsb.Hdr.Init.Laws.{IsValid}
use weaver_dsb.Hdr.Record.{hdr_record_values}
use weaver_dsb.Hdr.Record.Laws.{counted, counted-IsValid, hdr_record_values_lem}
use weaver_dsb.Hdr.Iter.{hdr_recorded_iter_next, rounds}
use weaver_dsb.Hdr.Iter.Recorded.{Next, found, finished, recorded_next_lem}
use weaver_dsb.Hdr.Iter.Values.{value_of, index_of-value_of, value_of-lt}
use weaver_dsb.Hdr.Iter.Places.{count_before, visited, visited-shown}
use weaver_dsb.Hdr.Add.{add_loop, hdr_add}
use weaver_dsb.Hdr.Add.Alike.{IsAlike, index_of-alike}

-- `g` is `h` with the first `n` counters of `from` added.
pub record IsMerged (h from : Histogram) (n : ℕ) (g : Histogram) : Type 0 where
  pub valid : IsValid g
  pub alike : IsAlike g from
  pub each : (k : ℕ) → get_or g.counts k 0 ≡ get_or h.counts k 0 + get_or (take n from.counts) k 0
  pub total : g.total_count ≡ h.total_count + count_before from n

module _ {from : Histogram} (w : IsValid from) where
  -- Once everything is counted, nothing is left in the later counters.
  reached :
      (j : ℕ)
      → from.total_count ≤ count_before from j
      → count_before from from.counts_len ≡ count_before from j
  reached j done = omega (
    arith,
    w.total,
    done,
    sum-take-le from.counts j,
    sum-take-all from.counts from.counts_len (omega (arith, w.laid_out.stored)),
  )

  past :
      (j : ℕ)
      → from.total_count ≤ count_before from j
      → (k : ℕ) → get_or (take from.counts_len from.counts) k 0 ≡ get_or (take j from.counts) k 0
  past j done k = rw (take-all from.counts from.counts_len (omega (arith, w.laid_out.stored))) (
      sym (
        get_or-take_rest from.counts j k (omega (arith, done, w.total, sum-take-le from.counts j))))

module _ {h from : Histogram} (w : IsValid from) where
  IsMerged-skip :
      (i j : ℕ) (g : Histogram)
      → i ≤ j
      → ((k : ℕ) → get_or (take j from.counts) k 0 ≡ get_or (take i from.counts) k 0)
      → count_before from j ≡ count_before from i
      → IsMerged h from i g
      → IsMerged h from j g
  IsMerged-skip i j g le same count m = record {
    valid = m.valid;
    alike = m.alike;
    each = λ k. omega (arith, m.each k, same k);
    total = omega (arith, m.total, count);
  }

  IsMerged-add :
      (j : ℕ) (g : Histogram)
      → j < from.counts_len
      → IsMerged h from j g
      → IsMerged h from (suc j) (counted g j (get_or from.counts j 0))
  IsMerged-add j g lt m = record {
    valid = counted-IsValid j (get_or from.counts j 0) inside m.valid;
    alike = record {
      unit = m.alike.unit;
      magnitude = m.alike.magnitude;
      mask = m.alike.mask;
      half = m.alike.half;
      len = m.alike.len;
    };
    each = λ k. each k (ℕ_discrete j k);
    total = omega (arith, m.total, sum-take-suc from.counts j);
  }
    where
      inside : j < g.counts_len
      inside = omega (arith, lt, m.alike.len)

      each :
          (k : ℕ)
          → Dec (j ≡ k)
          → get_or (set g.counts j (get_or g.counts j 0 + get_or from.counts j 0)) k 0
            ≡ get_or h.counts k 0 + get_or (take (suc j) from.counts) k 0
      each k (yes e) = rw (← e) (
          omega (
            arith,
            get_or-set_self g.counts j (get_or g.counts j 0 + get_or from.counts j 0) 0
                (omega (arith, inside, m.valid.laid_out.stored)),
            m.each j,
            get_or-take_at from.counts j,
            get_or-take-suc_self from.counts j,
          ))
      each k (no ne) = omega (
        arith,
        get_or-set_ne g.counts j k (get_or g.counts j 0 + get_or from.counts j 0) 0 ne,
        m.each k,
        get_or-take-suc_ne from.counts j k ne,
      )

  -- Recording the entry that the iterator shows adds it to its own counter.
  record_entry :
      (j : ℕ) (g : Histogram)
      → j < from.counts_len
      → IsMerged h from j g
      → hdr_record_values g (pos (value_of from j)) (get_or from.counts j 0)
        ≡ returned (counted g j (get_or from.counts j 0), true)
  record_entry j g lt m =
      hdr_record_values_lem m.valid (value_of from j) small (get_or from.counts j 0) (
        (capacity_iff m.valid.laid_out (value_of from j) small).1
          (omega (arith, place, lt, m.alike.len)))
      ∙ ap (λ (k : ℕ). returned (counted g k (get_or from.counts j 0), true)) place
    where
      small : value_of from j < 2 ^ 63
      small = omega (arith, value_of-lt w.laid_out j lt)

      place : index_of g (value_of from j) ≡ j
      place = index_of-alike m.alike (value_of from j) ∙ index_of-value_of w.laid_out j lt

  -- The rest of the loop, from the place that the iterator moved to.
  add_step :
      (fuel i : ℕ) (g : Histogram) (dropped : ℕ)
      → i ≤ from.counts_len
      → IsMerged h from i g
      → ((j : ℕ)
          → i ≤ j
          → j < from.counts_len
          → (g' : Histogram) → IsMerged h from (suc j) g'
          → (r : Histogram) × (add_loop fuel g' from (visited from (suc j)) dropped
              ≡ returned (r, dropped))
            × IsMerged h from from.counts_len r)
      → Next from i (hdr_recorded_iter_next (rounds from) from (visited from i))
      → (r : Histogram) × (add_loop (suc fuel) g from (visited from i) dropped
          ≡ returned (r, dropped))
        × IsMerged h from from.counts_len r
  unfolding add_loop
  add_step fuel i g dropped le m rest (found j later lt some_count same count e) =
      let m' = IsMerged-skip i j g later same count m in
      let (r, ran, merged) =
        rest j later lt (counted g j (get_or from.counts j 0)) (IsMerged-add j g lt m') in
      (
        r,
        rw e (rw ((visited-shown from j).0, (visited-shown from j).1, record_entry j g lt m') ran),
        merged,
      )
  add_step fuel i g dropped le m rest (finished j le' done later same count e) = (
    g,
    rw e refl,
    IsMerged-skip j from.counts_len g le' (past w j done) (reached w j done)
        (IsMerged-skip i j g later same count m),
  )

  add_loop_lem :
      (fuel i : ℕ) (g : Histogram) (dropped : ℕ)
      → i ≤ from.counts_len
      → from.counts_len < i + fuel
      → IsMerged h from i g
      → (r : Histogram) × (add_loop fuel g from (visited from i) dropped ≡ returned (r, dropped))
        × IsMerged h from from.counts_len r
  add_loop_lem zero i g dropped le enough m = absurd (omega arith)
  add_loop_lem (suc fuel) i g dropped le enough m =
      add_step fuel i g dropped le m
        (λ j later lt g' m'. add_loop_lem fuel (suc j) g' dropped lt (omega arith) m')
        (recorded_next_lem w (rounds from) i le (omega arith))

-- hdr_add of two valid histograms of one configuration returns, drops nothing, and leaves a valid
-- histogram of that configuration that counts, in each counter and in all, what the two counted.
pub hdr_add_lem :
    {h from : Histogram}
    → IsValid h
    → IsValid from
    → IsAlike h from
    → (r : Histogram) × (hdr_add h from ≡ returned (r, 0))
      × IsValid r
      × ((k : ℕ) → get_or r.counts k 0 ≡ get_or h.counts k 0 + get_or from.counts k 0)
      × (r.total_count ≡ h.total_count + from.total_count)
      × IsAlike r from
unfolding hdr_add visited
hdr_add_lem {h} {from} v w a =
    let (r, ran, m) =
      add_loop_lem {h = h} {from = from} w (rounds from) 0 h 0 (omega arith) (omega arith) start in
    (
      r,
      ran,
      m.valid,
      λ k. m.each k ∙ ap (λ (xs : List ℕ). get_or h.counts k 0 + get_or xs k 0) all,
      omega (arith, m.total, w.total, ap sum all),
      m.alike,
    )
  where
    all : take from.counts_len from.counts ≡ from.counts
    all = take-all from.counts from.counts_len (omega (arith, w.laid_out.stored))

    start : IsMerged h from 0 h
    start = record { valid = v; alike = a; each = λ k. omega arith; total = omega arith }

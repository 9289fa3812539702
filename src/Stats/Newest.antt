-- ===== src/Stats/Newest.antt =====
-- What stats_mean of wrk2/src/stats.c reads from a ring of samples that stats_record has filled.
use weaver_dsb.Prelude.{
  ℕ, zero, suc, ◌+◌, ◌%◌, ◌^◌, ◌≤◌, ◌<◌, ◌≡◌, refl, sym, ap, subst, ◌∙◌, arith, min, none, true,
  false, List, [], ◌∷◌, dec_lt,
}
use weaver_dsb.Prelude.Tests.{ltb, ◌==◌, if◌then◌else◌}
use weaver_dsb.Prelude.Lists.{
  length, get_or, set, take, sum, sum-take-suc, sum-take-all, length-set,
}
use weaver_dsb.Prelude.Checked.{Checked, returned, ◌>>=◌}
use weaver_dsb.Prelude.Int.{add64}
use weaver_dsb.Prelude.Inversion.{returned_inj}
use weaver_dsb.Prelude.Float.{Float}
use weaver_dsb.Stats.{Stats, stats_alloc, stats_record, extremes, put_sample}
use weaver_dsb.Stats.Ring.{Holds, slot, stats_alloc-Holds, stats_record-Holds}
use weaver_dsb.Stats.Summary.{sum64, stats_mean}

sum-take-nil : (n : ℕ) → sum (take n []) ≡ 0
sum-take-nil zero = refl
sum-take-nil (suc n) = refl

-- A set entry takes the place of the old one in the sum.
sum-set_swap :
    (xs : List ℕ) (i x : ℕ) → i < length xs → sum (set xs i x) + get_or xs i 0 ≡ sum xs + x
sum-set_swap [] i x lt = absurd (omega arith)
sum-set_swap (y ∷ xs) zero x lt = omega arith
sum-set_swap (y ∷ xs) (suc i) x lt = omega (arith, sum-set_swap xs i x (omega arith))

sum-take_grown :
    (xs : List ℕ) (i x : ℕ) → i < length xs → sum (take (suc i) (set xs i x)) ≡ sum (take i xs) + x
sum-take_grown [] i x lt = absurd (omega arith)
sum-take_grown (y ∷ xs) zero x lt = omega arith
sum-take_grown (y ∷ xs) (suc i) x lt = omega (arith, sum-take_grown xs i x (omega arith))

-- The samples sum up to the newest values; while the ring is not full, the next one goes behind the
-- last.
record IsSummed (s : Stats) (history : List ℕ) : Type 0 where
  at_end : s.limit < s.samples → s.index ≡ s.limit
  same : sum (take s.limit s.values) ≡ sum (take s.samples history)

stats_alloc-IsSummed : (samples : ℕ) → IsSummed (stats_alloc samples) []
unfolding stats_alloc
stats_alloc-IsSummed samples = record { at_end = λ lt. refl; same = sym (sum-take-nil samples) }

-- the sums with one value more, in a ring with room, and in one that is full
sum_with_room :
    (values history : List ℕ) (x limit samples : ℕ)
    → limit < samples
    → length values ≡ samples
    → length history ≡ limit
    → sum (take limit values) ≡ sum (take samples history)
    → sum (take (suc limit) (set values limit x)) ≡ sum (take samples (x ∷ history))
sum_with_room values history x limit zero lt stored len same = absurd (omega arith)
sum_with_room values history x limit (suc m) lt stored len same = omega (
  arith,
  sum-take_grown values limit x (omega arith),
  same,
  sum-take-all history (suc m) (omega arith),
  sum-take-all history m (omega arith),
)

sum_when_full :
    (values history : List ℕ) (x index samples : ℕ)
    → index < samples
    → length values ≡ samples
    → ((k : ℕ) → suc k ≡ samples → get_or values index 0 ≡ get_or history k 0)
    → sum (take samples values) ≡ sum (take samples history)
    → sum (take samples (set values index x)) ≡ sum (take samples (x ∷ history))
sum_when_full values history x index zero lt stored oldest same = absurd (omega arith)
sum_when_full values history x index (suc m) lt stored oldest same = omega (
  arith,
  sum-take-all (set values index x) (suc m) (omega (arith, length-set values index x, stored)),
  sum-take-all values (suc m) (omega (arith, stored)),
  sum-set_swap values index x (omega (arith, stored, lt)),
  oldest m refl,
  same,
  sum-take-suc history m,
)

put_sample-IsSummed :
    (s : Stats) (history : List ℕ) (x : ℕ)
    → Holds s history
    → IsSummed s history
    → IsSummed (put_sample (extremes s x) x) (x ∷ history)
unfolding put_sample extremes
put_sample-IsSummed s history x v w = elim (dec_lt s.limit s.samples) [
  | yes room ↦
      let test : ltb s.limit s.samples ≡ true = ground (arith, room) in
      let grown : add64 s.limit 1 ≡ suc s.limit = omega (arith, v.in_word, room) in
      let place = w.at_end room in
      rw (test, grown, place)
        (record {
          at_end = λ lt. ground (arith, v.in_word, room, lt);
          same =
              sum_with_room s.values history x s.limit s.samples room v.stored
                (omega (arith, v.filled, room)) w.same;
        })
  | no full ↦
      let test : ltb s.limit s.samples ≡ false = ground (arith, full) in
      let whole : s.limit ≡ s.samples = omega (arith, v.filled, full) in
      rw test (record {
        at_end = λ lt. absurd (omega (arith, lt, full));
        same = rw whole (
            sum_when_full s.values history x s.index s.samples v.inside v.stored
              (λ k e.
                ap (λ i. get_or s.values i 0) (oldest_at k e)
                ∙ v.newest k (omega (arith, e, whole)))
              (ap (λ n. sum (take n s.values)) (sym whole) ∙ w.same));
      })
]
  where
    oldest_at : (k : ℕ) → suc k ≡ s.samples → s.index ≡ slot s.samples s.index k
    oldest_at k e = ground (arith, e, v.inside)

sum64_lem : (xs : List ℕ) (n : ℕ) → n < 2 ^ 64 → sum64 xs n ≡ (n + sum xs) % 2 ^ 64
unfolding sum64
sum64_lem [] n small = omega (arith, small)
sum64_lem (x ∷ xs) n small = omega (arith, sum64_lem xs (add64 n x) (omega arith))

-- A new `stats` that has recorded values, the newest first.
abbrev pub recorded : ℕ → List ℕ → Checked Stats
recorded samples [] = returned (stats_alloc samples)
recorded samples (x ∷ history) = recorded samples history >>= λ s. stats_record s x

record IsRing (samples : ℕ) (history : List ℕ) (s : Stats) : Type 0 where
  room : s.samples ≡ samples
  holds : Holds s history
  summed : IsSummed s history

stats_record-returns :
    (s : Stats) (x : ℕ)
    → s.histogram ≡ none
    → stats_record s x ≡ returned (put_sample (extremes s x) x)
unfolding stats_record extremes put_sample
stats_record-returns s x e = rw e refl

put_sample-samples : (s : Stats) (x : ℕ) → (put_sample (extremes s x) x).samples ≡ s.samples
unfolding extremes put_sample
put_sample-samples s x = refl

recorded_lem :
    (samples : ℕ) (history : List ℕ)
    → 1 ≤ samples
    → samples < 2 ^ 64
    → (s : Stats) × (recorded samples history ≡ returned s) × IsRing samples history s
unfolding stats_alloc
recorded_lem samples [] one word = (
  stats_alloc samples,
  refl,
  record {
    room = refl;
    holds = stats_alloc-Holds samples one word;
    summed = stats_alloc-IsSummed samples;
  },
)
recorded_lem samples (x ∷ history) one word =
    let (s, ran, v) = recorded_lem samples history one word in
    let (s', e, held) = stats_record-Holds x v.holds in
    let put = stats_record-returns s x v.holds.bare in
    (
      put_sample (extremes s x) x,
      rw ran put,
      record {
        room = put_sample-samples s x ∙ v.room;
        holds = subst (λ k. Holds k (x ∷ history)) (returned_inj (sym e ∙ put)) held;
        summed = put_sample-IsSummed s history x v.holds v.summed;
      },
    )

stats_mean_bare :
    (f : Float) (s : Stats)
    → s.histogram ≡ none
    → stats_mean f s
      ≡ returned (
          if s.limit == 0
          then f.of_ℕ 0
          else f.over (f.of_ℕ (sum64 (take s.limit s.values) 0)) (f.of_ℕ s.limit))
unfolding stats_mean
stats_mean_bare f s e = rw e refl

-- A new `stats` with room for some samples, fewer than 2^64, that has recorded values: stats_mean
-- returns the sum, modulo 2^64, of as many of the newest values as there is room for, divided by
-- their number, or 0 if nothing is recorded.
pub stats_mean_lem :
    (f : Float) (samples : ℕ) (history : List ℕ)
    → 1 ≤ samples
    → samples < 2 ^ 64
    → (s : Stats) × (recorded samples history ≡ returned s)
      × (stats_mean f s
          ≡ returned (
              if min (length history) samples == 0
              then f.of_ℕ 0
              else f.over
                  (f.of_ℕ (sum (take samples history) % 2 ^ 64))
                  (f.of_ℕ (min (length history) samples))))
stats_mean_lem f samples history one word =
    let (s, ran, v) = recorded_lem samples history one word in
    let number : s.limit ≡ min (length history) samples =
      v.holds.filled ∙ ap (min (length history)) v.room in
    let total : sum64 (take s.limit s.values) 0 ≡ sum (take samples history) % 2 ^ 64 =
      sum64_lem (take s.limit s.values) 0 (omega arith)
      ∙ ap (λ n. (0 + n) % 2 ^ 64) (v.summed.same ∙ ap (λ n. sum (take n history)) v.room)
      ∙ omega arith in
    (
      s,
      ran,
      stats_mean_bare f s v.holds.bare
          ∙ (ap
                (λ n.
                  returned (if s.limit == 0 then f.of_ℕ 0 else f.over (f.of_ℕ n) (f.of_ℕ s.limit)))
                total
              ∙ ap
                  (λ k. returned (
                    if k == 0
                    then f.of_ℕ 0
                    else f.over (f.of_ℕ (sum (take samples history) % 2 ^ 64)) (f.of_ℕ k)))
                  number),
    )

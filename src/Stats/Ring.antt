-- ===== src/Stats/Ring.antt =====
-- The samples of a `stats` are the last ones recorded.
use weaver_dsb.Prelude.{
  ℕ, zero, suc, ◌+◌, ◌-◌, ◌^◌, ◌≤◌, ◌<◌, ◌≡◌, refl, sym, subst, ◌∙◌, arith, ◌≢◌, min, max, none,
  List, [], ◌∷◌,
}
use weaver_dsb.Prelude.Tests.{ltb, ◌==◌, if◌then◌else◌}
use weaver_dsb.Prelude.Lists.{
  length, get_or, set, length-set, get_or-set_self, get_or-set_ne, length-replicate,
}
use weaver_dsb.Prelude.Checked.{returned}
use weaver_dsb.Prelude.Int.{add64}
use weaver_dsb.Stats.{Stats, uint64_max, stats_alloc, stats_record, extremes, put_sample}

-- the least and the greatest of the values recorded
abbrev pub least_of : List ℕ → ℕ
least_of [] = uint64_max
least_of (x ∷ xs) = min x (least_of xs)

abbrev pub greatest_of : List ℕ → ℕ
greatest_of [] = 0
greatest_of (x ∷ xs) = max x (greatest_of xs)

-- where the ring holds the sample that `k` samples followed
abbrev pub slot : ℕ → ℕ → ℕ → ℕ
slot samples index k = if ltb k index then index - 1 - k else (index + samples - 1 - k)

-- `s` has no histogram and has recorded `history`, newest first.
pub record Holds (s : Stats) (history : List ℕ) : Type 0 where
  pub bare : s.histogram ≡ none
  pub some_room : 1 ≤ s.samples
  pub in_word : s.samples < 2 ^ 64
  pub stored : length s.values ≡ s.samples
  pub inside : s.index < s.samples
  pub filled : s.limit ≡ min (length history) s.samples
  pub least : s.least ≡ least_of history
  pub greatest : s.greatest ≡ greatest_of history
  pub newest :
      (k : ℕ) → k < s.limit → get_or s.values (slot s.samples s.index k) 0 ≡ get_or history k 0

-- A new `stats` has recorded nothing.
pub stats_alloc-Holds :
    (samples : ℕ) → 1 ≤ samples → samples < 2 ^ 64 → Holds (stats_alloc samples) []
unfolding stats_alloc
stats_alloc-Holds samples one word = record {
  bare = refl;
  some_room = one;
  in_word = word;
  stored = length-replicate samples 0;
  inside = omega arith;
  filled = omega arith;
  least = refl;
  greatest = refl;
  newest = λ k lt. absurd (omega arith);
}

advance : ℕ → ℕ → ℕ
advance samples index = if (index + 1) == samples then 0 else (index + 1)

advance-lt : (samples index : ℕ) → index < samples → advance samples index < samples
unfolding advance
advance-lt samples index lt = ground arith

slot-advance_zero :
    (samples index : ℕ) → index < samples → slot samples (advance samples index) 0 ≡ index
unfolding advance
slot-advance_zero samples index lt = ground arith

slot-advance-suc :
    (samples index k : ℕ)
    → index < samples
    → suc k < samples
    → slot samples (advance samples index) (suc k) ≡ slot samples index k
unfolding advance
slot-advance-suc samples index k lt k_lt = ground arith

slot-ne : (samples index k : ℕ) → index < samples → suc k < samples → slot samples index k ≢ index
slot-ne samples index k lt k_lt = ground arith

newest_step :
    (values history : List ℕ) (x samples index k limit : ℕ)
    → length values ≡ samples
    → index < samples
    → ((j : ℕ) → j < limit → get_or values (slot samples index j) 0 ≡ get_or history j 0)
    → k < min (suc limit) samples
    → get_or (set values index x) (slot samples (advance samples index) k) 0
      ≡ get_or (x ∷ history) k 0
newest_step values history x samples index zero limit stored lt newest k_lt =
    rw (slot-advance_zero samples index lt) (get_or-set_self values index x 0 (omega arith))
newest_step values history x samples index (suc k) limit stored lt newest k_lt =
    rw (slot-advance-suc samples index k lt (omega arith)) (
      get_or-set_ne values index (slot samples index k) x 0
        (λ e. slot-ne samples index k lt (omega arith) (sym e))
      ∙ newest k (omega arith))

limit_step :
    (limit samples n : ℕ)
    → samples < 2 ^ 64
    → limit ≡ min n samples
    → (if ltb limit samples then add64 limit 1 else limit) ≡ min (suc n) samples
limit_step limit samples n word e = ground arith

advance_lem :
    (samples index : ℕ)
    → samples < 2 ^ 64
    → index < samples
    → advance samples index ≡ (if add64 index 1 == samples then 0 else add64 index 1)
unfolding advance
advance_lem samples index word lt = ground arith

-- In a `stats` without a histogram, stats_record puts a value in front of the history. The ring
-- keeps as many of the newest values as it has room for, and the extremes are those of all values,
-- the overwritten ones included.
pub stats_record-Holds :
    {s : Stats} {history : List ℕ} (x : ℕ)
    → Holds s history
    → (s' : Stats) × (stats_record s x ≡ returned s') × Holds s' (x ∷ history)
unfolding stats_record extremes put_sample
stats_record-Holds {s} {history} x v = (
  put_sample (extremes s x) x,
  rw v.bare refl,
  record {
    bare = v.bare;
    some_room = v.some_room;
    in_word = v.in_word;
    stored = length-set s.values s.index x ∙ v.stored;
    inside =
        rw (sym (advance_lem s.samples s.index v.in_word v.inside))
          (advance-lt s.samples s.index v.inside);
    filled = limit_step s.limit s.samples (length history) v.in_word v.filled;
    least = ground arith;
    greatest = ground arith;
    newest = λ k k_lt.
        subst
          (λ i. get_or (set s.values s.index x) (slot s.samples i k) 0 ≡ get_or (x ∷ history) k 0)
          (advance_lem s.samples s.index v.in_word v.inside)
          (newest_step s.values history x s.samples s.index k s.limit v.stored v.inside v.newest (
            subst (λ n. k < n) (limit_step s.limit s.samples s.limit v.in_word (omega arith))
              k_lt));
  },
)

-- ===== src/Wrk/Gaps.antt =====
-- The random gaps between the requests of a connection: gen_zipf and gen_exp of wrk2/src/wrk.c. The
-- outputs of `rand` are an argument.
use weaver_dsb.Prelude.{
  ℕ, zero, suc, ◌+◌, ◌≤◌, ◌≡◌, Bool, false, ◌||◌, Option, none, some, List, [], ◌∷◌, arith, inl,
  inr,
}
use weaver_dsb.Prelude.Tests.{if◌then◌else◌, Bool-cases}
use weaver_dsb.Prelude.Int.{pos_part}
use weaver_dsb.Prelude.Float.{Float}
use weaver_dsb.Prelude.Checked.{Checked, returned, aborted, out_of_fuel, ◌>>=◌}

-- `n` of gen_zipf
abbrev pub ranks : ℕ
ranks = 100

some_inj {ℓ} : {A : Type ℓ} {a b : A} → some a ≡ some b → a ≡ b
some_inj e = cc e

module _ (f : Float) where
  open f use {Double, of_ℕ, plus, times, over, less, equal, pow, log, negate, truncate}

  -- the loop over the outputs of `rand`, up to the first that is neither 0 nor RAND_MAX
  unfoldable pub draw : List ℕ → Checked Double
  draw [] = out_of_fuel
  draw (x ∷ xs) =
      let z = over (of_ℕ x) (of_ℕ (2147483647)) in
      let rest = draw xs in if equal z (of_ℕ 0) || equal z (of_ℕ 1) then rest else returned z

  unfoldable gen_exp : List ℕ → ℕ → Checked ℕ
  gen_exp outputs interval = do
    z ← draw outputs
    returned (pos_part (truncate (times (negate (log z)) (of_ℕ interval))))

  -- the static variables of gen_zipf
  pub record Zipf : Type 0 where
    pub first : Bool
    pub c : Double
    pub scalar : Double

  -- i to the power of alpha
  abbrev pub weight : ℕ → Double
  weight i = pow (of_ℕ i) (of_ℕ 3)

  -- the sums of the first call, over `count` ranks from `i` on
  unfoldable pub sum_weights : ℕ → ℕ → Double → Double
  sum_weights zero i c = c
  sum_weights (suc count) i c = sum_weights count (i + 1) (plus c (over (of_ℕ 1) (weight i)))

  unfoldable pub sum_means : ℕ → ℕ → Double → Double → Double
  sum_means zero i c scalar = scalar
  sum_means (suc count) i c scalar =
      sum_means count (i + 1) c (plus scalar (times (of_ℕ i) (over c (weight i))))

  unfoldable pub prepare_zipf : ℕ → Zipf → Zipf
  prepare_zipf interval s =
      let c = over (of_ℕ 1) (sum_weights ranks 1 s.c) in
      if s.first
      then record {
        first = false;
        c = c;
        scalar = over (of_ℕ interval) (sum_means ranks 1 c s.scalar);
      }
      else s

  -- the first rank whose cumulated probability reaches `z`, if there is one
  unfoldable pub find_rank : ℕ → ℕ → Double → Double → Double → Option ℕ
  find_rank zero i c z sum_prob = none
  find_rank (suc count) i c z sum_prob =
      let sum = plus sum_prob (over c (weight i)) in
      let rest = find_rank count (i + 1) c z sum in
      if less z sum || equal z sum then some i else rest

  -- `zipf_value` has no value if no rank is found: reading it is undefined.
  abbrev pub gap_of_rank : Double → Option ℕ → Checked ℕ
  gap_of_rank scalar none = aborted
  gap_of_rank scalar (some i) = returned (pos_part (truncate (times (of_ℕ i) scalar)))

  unfoldable gen_zipf : List ℕ → ℕ → Zipf → Checked (Zipf × ℕ)
  gen_zipf outputs interval s = do
    let s' = prepare_zipf interval s
    z ← draw outputs
    gap ← gap_of_rank s'.scalar (find_rank ranks 1 s'.c z (of_ℕ 0))
    returned (s', gap)

  -- A rank that is found lies in the range that is searched.
  find_rank-bounds :
      (count i : ℕ) (c z sum_prob : Double) (k : ℕ)
      → find_rank count i c z sum_prob ≡ some k
      → (i ≤ k) × (k + 1 ≤ i + count)
  unfolding find_rank
  find_rank-bounds zero i c z sum_prob k e = absurd (cc e)
  find_rank-bounds (suc count) i c z sum_prob k e =
      let sum = plus sum_prob (over c (weight i)) in
      let found = less z sum || equal z sum in
      elim (Bool-cases found) [
        | inl here ↦
            let same : i ≡ k = some_inj (rw here at e) in (omega (arith, same), omega (arith, same))
        | inr later ↦
            let rest : find_rank count (i + 1) c z sum ≡ some k = rw later at e in
            let (lo, hi) = find_rank-bounds count (i + 1) c z sum k rest in
            (omega arith, omega arith)
      ]

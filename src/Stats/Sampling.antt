-- ===== src/Stats/Sampling.antt =====
-- rand64 and stats_sample of wrk2/src/stats.c. The outputs of tinymt64_generate_uint64 are an
-- argument, and the state of the generator is the number of outputs drawn.
use native.Mathlib.Nat.{mod-lt, div-add-mod'}
use weaver_dsb.Prelude.{
  ℕ, zero, suc, ◌+◌, ◌-◌, ◌*◌, ◌/◌, ◌%◌, ◌≤◌, ◌<◌, ◌≡◌, refl, ap, subst, ◌∙◌, arith, true, false,
  dec_lt,
}
use weaver_dsb.Prelude.Tests.{leb, if◌then◌else◌}
use weaver_dsb.Prelude.Lists.{get_or}
use weaver_dsb.Prelude.Checked.{Checked, returned, out_of_fuel, ◌>>=◌}
use weaver_dsb.Stats.{Stats, uint64_max, stats_record}

-- `max`, from where on outputs are thrown away
unfoldable pub rand_bound : ℕ → ℕ
rand_bound n = uint64_max - uint64_max % n

-- The output taken, below the bound, and the state; on fuel.
unfoldable pub draw_loop : ℕ → (ℕ → ℕ) → ℕ → ℕ → Checked (ℕ × ℕ)
draw_loop zero outputs bound state = out_of_fuel
draw_loop (suc fuel) outputs bound state =
    let rest = draw_loop fuel outputs bound (state + 1) in
    if leb bound (outputs state) then rest else returned (outputs state, state + 1)

unfoldable pub rand64 : ℕ → (ℕ → ℕ) → ℕ → ℕ → Checked (ℕ × ℕ)
rand64 fuel outputs state n =
    draw_loop fuel outputs (rand_bound n) state >>= λ r. returned (r.0 % n, r.1)

-- `count` samples of `src`, each recorded in `dst`
unfoldable pub stats_sample : ℕ → (ℕ → ℕ) → ℕ → ℕ → Stats → Stats → Checked (Stats × ℕ)
stats_sample fuel outputs state zero dst src = returned (dst, state)
stats_sample fuel outputs state (suc count) dst src = rand64 fuel outputs state src.limit >>= λ r.
    stats_record dst (get_or src.values r.0 0) >>= λ dst'.
    stats_sample fuel outputs r.1 count dst' src

draw_loop-low :
    (fuel : ℕ) (outputs : ℕ → ℕ) (bound state : ℕ)
    → outputs state < bound
    → draw_loop (suc fuel) outputs bound state ≡ returned (outputs state, state + 1)
unfolding draw_loop
draw_loop-low fuel outputs bound state low =
    let test : leb bound (outputs state) ≡ false = ground arith in rw test refl

draw_loop-high :
    (fuel : ℕ) (outputs : ℕ → ℕ) (bound state : ℕ)
    → bound ≤ outputs state
    → draw_loop (suc fuel) outputs bound state ≡ draw_loop fuel outputs bound (state + 1)
unfolding draw_loop
draw_loop-high fuel outputs bound state high =
    let test : leb bound (outputs state) ≡ true = ground arith in rw test refl

-- The loop ends at the first output below the bound, given fuel to reach one.
draw_loop_lem :
    (k fuel : ℕ) (outputs : ℕ → ℕ) (bound state : ℕ)
    → outputs (state + k) < bound
    → k < fuel
    → (j : ℕ) × (draw_loop fuel outputs bound state ≡ returned (outputs (state + j), state + j + 1))
      × (j ≤ k)
      × (outputs (state + j) < bound)
draw_loop_lem k zero outputs bound state low enough = absurd (omega arith)
draw_loop_lem zero (suc fuel) outputs bound state low enough =
    let here : outputs state < bound = subst (λ (s : ℕ). outputs s < bound) (omega arith) low in
    (
      0,
      draw_loop-low fuel outputs bound state here
          ∙ ap (λ (s : ℕ). returned (outputs s, s + 1)) (omega arith),
      omega arith,
      low,
    )
draw_loop_lem (suc k) (suc fuel) outputs bound state low enough =
    elim (dec_lt (outputs state) bound) [
      | yes lt ↦ (
        0,
        draw_loop-low fuel outputs bound state lt
            ∙ ap (λ (s : ℕ). returned (outputs s, s + 1)) (omega arith),
        omega arith,
        subst (λ (s : ℕ). outputs s < bound) (omega arith) lt,
      )
      | no ge ↦
          let (j, ran, le, found) =
            draw_loop_lem k fuel outputs bound (state + 1)
              (subst (λ (s : ℕ). outputs s < bound) (omega arith) low) (omega arith) in
          (
            suc j,
            draw_loop-high fuel outputs bound state (omega (arith, ge))
                ∙ ran
                ∙ ap (λ (s : ℕ). returned (outputs s, s + 1)) (omega arith),
            omega arith,
            subst (λ (s : ℕ). outputs s < bound) (omega arith) found,
          )
    ]

-- The bound is a multiple of `n`, so that every remainder has as many outputs below it.
rand_bound_lem : (n : ℕ) → rand_bound n ≡ uint64_max / n * n
unfolding rand_bound
rand_bound_lem n = omega (arith, div-add-mod' uint64_max n)

-- For a positive `n`, where the output `k` draws on is below the greatest multiple of `n` that a
-- uint64_t holds, and the fuel is more than `k`, rand64 returns the remainder of such an output,
-- which is drawn no later and is less than `n` once reduced.
pub rand64_lem :
    (k fuel : ℕ) (outputs : ℕ → ℕ) (state n : ℕ)
    → 1 ≤ n
    → outputs (state + k) < uint64_max / n * n
    → k < fuel
    → (j : ℕ) × (rand64 fuel outputs state n ≡ returned (outputs (state + j) % n, state + j + 1))
      × (j ≤ k)
      × (outputs (state + j) < uint64_max / n * n)
      × (outputs (state + j) % n < n)
unfolding rand64
rand64_lem k fuel outputs state n one low enough =
    let (j, ran, le, found) =
      draw_loop_lem k fuel outputs (rand_bound n) state (rw (rand_bound_lem n) low) enough in
    (
      j,
      rw ran refl,
      le,
      omega (arith, found, rand_bound_lem n),
      mod-lt (outputs (state + j)) (omega arith),
    )

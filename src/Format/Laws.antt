-- ===== src/Format/Laws.antt =====
-- format_units of wrk2/src/units.c divides by the scale until the amount is below the limit or the
-- units but the last are used up, and print_units of wrk2/src/wrk.c keeps its width.
use weaver_dsb.Prelude.{
  ℕ, zero, suc, ◌-◌, ◌≤◌, ◌<◌, ◌≡◌, refl, ap, ◌∙◌, true, false, ◌⊎◌, inl, inr, List, [], ◌∷◌, min,
  arith,
}
use weaver_dsb.Prelude.Tests.{Bool-cases}
use weaver_dsb.Prelude.Lists.{length, get_or, take, replicate, length-append, length-replicate}
use weaver_dsb.Prelude.Float.{Float}
use weaver_dsb.Format.{reached, format_loop, limit_of, scaled_units, padding, in_width, print_units}

-- the base unit, and the others from 1 on
abbrev pub unit_at : List ℕ → List (List ℕ) → ℕ → List ℕ
unit_at base us zero = base
unit_at base us (suc k) = get_or us k []

abbrev pub divided : (f : Float) → f.Double → ℕ → f.Double → f.Double
divided f scale zero n = n
divided f scale (suc k) n = divided f scale k (f.over n scale)

-- Every amount before step `k` has reached the limit.
abbrev pub AllReached : (f : Float) → f.Double → f.Double → ℕ → f.Double → Type 0
AllReached f scale limit zero n = Unit {0}
AllReached f scale limit (suc k) n =
    (reached f n limit ≡ true) × AllReached f scale limit k (f.over n scale)

pub record IsScaled (f : Float) (scale limit n : f.Double) (base : List ℕ) (us : List (List ℕ))
    (r : f.Double × List ℕ) : Type 0 where
  pub steps : ℕ
  pub not_last : steps < length us
  pub amount : r.0 ≡ divided f scale steps n
  pub unit : r.1 ≡ unit_at base us steps
  pub large : AllReached f scale limit steps n
  pub stops : (suc steps ≡ length us) ⊎ (reached f (divided f scale steps n) limit ≡ false)

unit_shift :
    (base u : List ℕ) (us : List (List ℕ)) (k : ℕ) → unit_at u us k ≡ unit_at base (u ∷ us) (suc k)
unit_shift base u us zero = refl
unit_shift base u us (suc k) = refl

stops_later :
    (f : Float) (scale limit n : f.Double) (u : List ℕ) (us : List (List ℕ)) (k : ℕ)
    → (suc k ≡ length us) ⊎ (reached f (divided f scale k (f.over n scale)) limit ≡ false)
    → (suc (suc k) ≡ length (u ∷ us)) ⊎ (reached f (divided f scale (suc k) n) limit ≡ false)
stops_later f scale limit n u us k (inl e) = inl (ap suc e)
stops_later f scale limit n u us k (inr small) = inr small

module _ (f : Float) (scale limit : f.Double) where
  format_loop_lem :
      (n : f.Double) (base u : List ℕ) (us : List (List ℕ))
      → IsScaled f scale limit n base (u ∷ us) (format_loop f scale limit n base (u ∷ us))
  unfolding format_loop
  format_loop_lem n base u [] = record {
    steps = 0;
    not_last = omega arith;
    amount = refl;
    unit = refl;
    large = tt;
    stops = inl refl;
  }
  format_loop_lem n base u (v ∷ us) = elim (Bool-cases (reached f n limit)) [
    | inl more ↦
        let r = format_loop_lem (f.over n scale) u v us in
        rw more (record {
          steps = suc r.steps;
          not_last = omega (arith, r.not_last);
          amount = r.amount;
          unit = r.unit ∙ unit_shift base u (v ∷ us) r.steps;
          large = (more, r.large);
          stops = stops_later f scale limit n u (v ∷ us) r.steps r.stops;
        })
    | inr small ↦ rw small (record {
      steps = 0;
      not_last = omega arith;
      amount = refl;
      unit = refl;
      large = tt;
      stops = inr small;
    })
  ]

-- For a table with a unit after the base, format_units divides the number some times by the scale,
-- fewer times than there are units, and takes the unit of that place: each amount that it divides
-- has reached 0.85 times the scale, and it stops at an amount that has not, or where only the last
-- unit of the table, which it never takes, is left.
pub scaled_units_lem :
    (f : Float) (n : f.Double) (scale : ℕ) (base u : List ℕ) (us : List (List ℕ))
    → IsScaled f
        (f.of_ℕ scale)
        (limit_of f (record { scale = scale; base = base; units = u ∷ us }))
        n
        base
        (u ∷ us)
        (scaled_units f n (record { scale = scale; base = base; units = u ∷ us }))
unfolding scaled_units
scaled_units_lem f n scale base u us =
    format_loop_lem f (f.of_ℕ scale)
      (limit_of f (record { scale = scale; base = base; units = u ∷ us })) n base u us

length-take {ℓ} : {A : Type ℓ} (n : ℕ) (xs : List A) → length (take n xs) ≡ min n (length xs)
length-take zero xs = omega arith
length-take (suc n) [] = omega arith
length-take (suc n) (x ∷ xs) = omega (arith, length-take n xs)

-- print_units fills its width exactly, whatever the text.
pub length-print_units :
    (text : List ℕ) (width : ℕ) → 2 ≤ width → length (print_units text width) ≡ width
unfolding print_units
length-print_units text width wide =
    let cut = width - padding text in
    let few : padding text ≤ 2 = ground arith in
    omega (
      arith,
      few,
      length-append (in_width cut text) (replicate (padding text) 32),
      length-append (replicate (cut - length text) 32) (take cut text),
      length-replicate {A = ℕ} (cut - length text) 32,
      length-replicate {A = ℕ} (padding text) 32,
      length-take cut text,
    )

-- ===== src/Hdr/Record/Corrected.antt =====
-- hdr_record_corrected_value of wrk2/src/hdr_histogram.c records the values that a stall has
-- hidden.
use native.Mathlib.Nat.{div-add-mod', mod-lt, le-div_iff_mul-le, div-le_self}
use weaver_dsb.Prelude.{
  ℕ, max, zero, suc, ◌+◌, ◌-◌, ◌*◌, ◌/◌, ◌%◌, ◌^◌, ◌≤◌, ◌<◌, ◌≡◌, refl, sym, ap, ◌∙◌, true, false,
  ◌||◌, arith, dec_lt, inl, inr,
}
use weaver_dsb.Prelude.Tests.{leb, if◌then◌else◌, Bool-cases}
use weaver_dsb.Prelude.Int.{ℤ, pos, negsuc, leb_ℤ}
use weaver_dsb.Prelude.Checked.{returned}
use weaver_dsb.Hdr.{Histogram}
use weaver_dsb.Hdr.Layout.{capacity}
use weaver_dsb.Hdr.Index.{index_of}
use weaver_dsb.Hdr.Capacity.{capacity_iff}
use weaver_dsb.Hdr.Init.Laws.{IsValid}
use weaver_dsb.Hdr.Record.{hdr_record_value, correct_loop, hdr_record_corrected_value}
use weaver_dsb.Hdr.Record.Laws.{
  counted, counted-IsValid, hdr_record_values_lem, hdr_record_value-eq,
}

-- The loop records one value for each whole interval in what is missing.
correct_loop_lem :
    {h : Histogram} (rounds fuel missing interval : ℕ)
    → IsValid h
    → 0 < interval
    → missing < 2 ^ 63
    → missing < capacity h
    → missing < (rounds + 1) * interval
    → rounds * interval ≤ missing
    → rounds < fuel
    → (h' : Histogram) × (correct_loop fuel h missing interval ≡ returned (h', true))
      × IsValid h'
      × (h'.total_count ≡ h.total_count + rounds)
unfolding correct_loop
correct_loop_lem {h} rounds zero missing interval v one small lt up lo f = absurd (omega arith)
correct_loop_lem {h} zero (suc fuel) missing interval v one small lt up lo f =
    (h, rw (stop, correct_loop) refl, v, omega arith)
  where
    stop : leb interval missing ≡ false
    stop = ground (arith, up)
correct_loop_lem {h} (suc rounds) (suc fuel) missing interval v one small lt up lo f =
    let next = counted h (index_of h missing) 1 in
    let valid =
      counted-IsValid (index_of h missing) 1 ((capacity_iff v.laid_out missing small).0 lt) v in
    let (h', e, v', t) =
      correct_loop_lem {h = next} rounds fuel (missing - interval) interval valid one (omega arith)
        (omega arith) (omega arith) (omega arith) (omega arith) in
    (
      h',
      rw (go_on, correct_loop)
          (rw (hdr_record_value-eq v missing small, hdr_record_values_lem v missing small 1 lt) e),
      v',
      omega (arith, t),
    )
  where
    go_on : leb interval missing ≡ true
    go_on = ground (arith, lo)

recorded_first :
    {h : Histogram}
    → IsValid h
    → (value : ℕ) → value < 2 ^ 63
    → value < capacity h
    → hdr_record_value h (pos value) ≡ returned (counted h (index_of h value) 1, true)
recorded_first v value small lt =
    hdr_record_value-eq v value small ∙ hdr_record_values_lem v value small 1 lt

-- the whole intervals in a value, at least one
abbrev pub spans : ℕ → ℤ → ℕ
spans value (pos interval) = if leb value interval then 1 else (max 1 (value / interval))
spans value (negsuc interval) = 1

-- On a valid histogram a corrected recording of a covered value puts one value into the histogram
-- for each whole expected interval that it spans, and one value if it spans none or if the
-- interval is not positive. It succeeds, and keeps the invariant.
pub hdr_record_corrected_value_lem :
    {h : Histogram} (value : ℕ) (expected_interval : ℤ)
    → IsValid h
    → value < 2 ^ 63
    → value < capacity h
    → (h' : Histogram) × (hdr_record_corrected_value h (pos value) expected_interval
        ≡ returned (h', true))
      × IsValid h'
      × (h'.total_count ≡ h.total_count + spans value expected_interval)
unfolding hdr_record_corrected_value
hdr_record_corrected_value_lem {h} value (negsuc interval) v small lt = (
  counted h (index_of h value) 1,
  rw (recorded_first v value small lt) (ground arith),
  counted-IsValid (index_of h value) 1 ((capacity_iff v.laid_out value small).0 lt) v,
  refl,
)
hdr_record_corrected_value_lem {h} value (pos interval) v small lt =
    elim (Bool-cases (leb value interval)) [
      | inl short ↦ (
        first,
        rw (recorded_first v value small lt) (ground (arith, short)),
        valid,
        ground (arith, short),
      )
      | inr long ↦ go (dec_lt 0 interval) long
    ]
  where
    first : Histogram
    first = counted h (index_of h value) 1

    valid : IsValid first
    valid = counted-IsValid (index_of h value) 1 ((capacity_iff v.laid_out value small).0 lt) v

    Corrected : Type 0
    Corrected =
        (h' : Histogram) × (hdr_record_corrected_value h (pos value) (pos interval)
          ≡ returned (h', true))
        × IsValid h'
        × (h'.total_count ≡ h.total_count + spans value (pos interval))

    tested :
        interval < value
        → 0 < interval
        → (leb_ℤ (pos interval) (pos 0) || leb_ℤ (pos value) (pos interval)) ≡ false
    tested above one = ground arith

    several :
        (q : ℕ) → value / interval ≡ suc q → 0 < interval → leb value interval ≡ false → Corrected
    several q e one long =
        let above : interval < value = ground (arith, long) in
        let parts : suc q * interval + value % interval ≡ value =
          ap (λ (k : ℕ). k * interval + value % interval) (sym e) ∙ div-add-mod' value interval in
        let small_rest : value % interval < interval = mod-lt value one in
        let (h', ran, v', t) =
          correct_loop_lem {h = first} q (value + 1) (value - interval) interval valid one
            (omega (arith, small)) (omega (arith, lt)) (omega (arith, parts, small_rest))
            (omega (arith, parts)) (omega (arith, e, div-le_self value interval)) in
        (
          h',
          rw (recorded_first v value small lt) (rw (tested above one) ran),
          v',
          ground (arith, t, e, long, above),
        )

    go : Dec (0 < interval) → leb value interval ≡ false → Corrected
    go (no none) long = (
      first,
      rw (recorded_first v value small lt) (ground (arith, none)),
      valid,
      ground (arith, long, none),
    )
    go (yes one) long =
        several (value / interval - 1)
          (omega (
            arith,
            (le-div_iff_mul-le {k = interval} {x = 1} {y = value} one).1 (ground (arith, long)),
          ))
          one long

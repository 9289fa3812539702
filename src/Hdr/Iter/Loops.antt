-- ===== src/Hdr/Iter/Loops.antt =====
-- The rule for the loops over an iterator: total correctness from an invariant.
use weaver_dsb.Prelude.{ℕ, zero, suc, ◌+◌, ◌≤◌, ◌<◌, ◌≡◌, refl, arith, inl, inr}
use weaver_dsb.Prelude.Tests.{ltb, Bool-cases, ltb→lt}
use weaver_dsb.Prelude.Checked.{returned}
use weaver_dsb.Hdr.{Histogram}
use weaver_dsb.Hdr.Init.Laws.{IsValid}
use weaver_dsb.Hdr.Iter.{Iter, Flow, next, stop, iter_loop, hdr_iter_init, rounds}
use weaver_dsb.Hdr.Iter.Places.{visited, count_before, hdr_iter_next_lem, more-lt}

-- A round keeps the invariant `P` or ends the loop with the result `Q`.
abbrev pub Keeps {ℓ κ} : {S : Type ℓ} → (ℕ → S → Type κ) → (S → Type κ) → ℕ → Flow S → Type κ
Keeps P Q i (next s) = P i s
Keeps P Q i (stop s) = Q s

module _ {ℓ κ} {S : Type ℓ} {h : Histogram} (v : IsValid h) (body : Iter → S → Flow S)
    (P : ℕ → S → Type κ) (Q : S → Type κ)
    (round : (i : ℕ) (s : S)
      → i < h.counts_len
      → count_before h i < h.total_count
      → P i s
      → Keeps P Q (suc i) (body (visited h (suc i)) s))
    (finish : (i : ℕ) (s : S)
      → i ≤ h.counts_len
      → h.total_count ≤ count_before h i
      → P i s
      → Q s) where
  after_round :
      (fuel i : ℕ) (f : Flow S)
      → Keeps P Q (suc i) f
      → ((s : S)
          → P (suc i) s
          → (r : S) × (iter_loop fuel h body (visited h (suc i)) s ≡ returned r) × Q r)
      → (r : S) × ((elim f [
        | next s' ↦ iter_loop fuel h body (visited h (suc i)) s'
        | stop s' ↦ returned s'
      ])
          ≡ returned r)
        × Q r
  after_round fuel i (next s) k rest = rest s k
  after_round fuel i (stop s) k rest = (s, refl, k)

  loop_from :
      (fuel i : ℕ) (s : S)
      → i ≤ h.counts_len
      → h.counts_len < i + fuel
      → P i s
      → (r : S) × (iter_loop fuel h body (visited h i) s ≡ returned r) × Q r
  unfolding iter_loop
  loop_from zero i s le enough p = absurd (omega arith)
  loop_from (suc fuel) i s le enough p = elim (Bool-cases (ltb (count_before h i) h.total_count)) [
    | inl more ↦
        let lt = more-lt v i le (ltb→lt _ _ more) in
        rw (hdr_iter_next_lem v i le, more)
          (after_round fuel i (body (visited h (suc i)) s) (round i s lt (ltb→lt _ _ more) p)
            (λ t q. loop_from fuel (suc i) t lt (omega arith) q))
    | inr done ↦
        (s, rw (hdr_iter_next_lem v i le, done) refl, finish i s le (ground (arith, done)) p)
  ]

  -- A loop over the whole histogram ends, with a result that has the property.
  pub iter_loop_lem :
      (s : S) → P 0 s → (r : S) × (iter_loop (rounds h) h body hdr_iter_init s ≡ returned r) × Q r
  unfolding visited
  iter_loop_lem s p = loop_from (rounds h) 0 s (omega arith) (omega arith) p

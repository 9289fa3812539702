-- ===== src/Wrk/Outstanding.antt =====
-- The ring `actual_latency_start` of a connection of wrk2/src/wrk.c holds the start of every
-- request that waits for its response.
use weaver_dsb.Prelude.{
  ℕ, suc, ◌+◌, ◌-◌, ◌%◌, ◌^◌, ◌≤◌, ◌<◌, ◌≡◌, ◌≢◌, ap, ◌∙◌, arith, List, ◌∷◌, true, ℕ_discrete,
}
use weaver_dsb.Prelude.Tests.{◌==◌}
use weaver_dsb.Prelude.Lists.{length, get_or, set, length-set, get_or-set_self, get_or-set_ne}
use weaver_dsb.Prelude.Int.{add64}
use weaver_dsb.Wrk.{Connection, outstanding_max}
use weaver_dsb.Wrk.Send.{begin_request}

-- `starts` are the starts of all requests that were sent, the last one first.
pub record IsTracked (starts : List ℕ) (c : Connection) : Type 0 where
  pub all_sent : length starts ≡ c.sent
  pub in_order : c.complete ≤ c.sent
  pub window : c.sent ≤ c.complete + outstanding_max
  pub in_word : c.sent < 2 ^ 63
  pub room : length c.actual_latency_start ≡ outstanding_max
  pub waiting :
      (i : ℕ)
      → c.complete ≤ i
      → i < c.sent
      → get_or c.actual_latency_start (i % outstanding_max) 0 ≡ get_or starts (c.sent - 1 - i) 0

-- Two requests less than a ring apart have different places.
place-ne : (i j : ℕ) → i < j → j < i + outstanding_max → j % outstanding_max ≢ i % outstanding_max
place-ne i j lt close e = omega arith

-- While fewer than 16384 requests wait, and fewer than 2^63 were sent, the start of a request that
-- begins goes in front of the starts tracked, and the ring holds those of all that wait.
pub begin_request-IsTracked :
    (t : ℕ) {starts : List ℕ} {c : Connection}
    → IsTracked starts c
    → c.written ≡ 0
    → c.sent < c.complete + outstanding_max
    → c.sent + 1 < 2 ^ 63
    → IsTracked (t ∷ starts) (begin_request t c)
unfolding begin_request
begin_request-IsTracked t {starts} {c} v fresh space fits =
    let test : (c.written == 0) ≡ true = ground arith in
    let grown : add64 c.sent 1 ≡ c.sent + 1 = omega arith in
    rw (test, grown)
      (record {
        all_sent = omega (arith, v.all_sent);
        in_order = omega (arith, v.in_order);
        window = omega (arith, space);
        in_word = fits;
        room = length-set c.actual_latency_start (c.sent % outstanding_max) t ∙ v.room;
        waiting = λ i lo hi. elim (ℕ_discrete i c.sent) [
          | yes e ↦ set_at i e ∙ ap (λ (k : ℕ). get_or (t ∷ starts) k 0) (newest i e)
          | no ne ↦
              get_or-set_ne c.actual_latency_start (c.sent % outstanding_max) (i % outstanding_max)
                t 0 (place-ne i c.sent (omega arith) (omega (arith, lo, space)))
              ∙ v.waiting i lo (omega arith)
              ∙ ap (λ (k : ℕ). get_or (t ∷ starts) k 0) (shifted i (omega arith))
        ];
      })
  where
    newest : (i : ℕ) → i ≡ c.sent → 0 ≡ c.sent + 1 - 1 - i
    newest i e = omega arith

    shifted : (i : ℕ) → i < c.sent → suc (c.sent - 1 - i) ≡ c.sent + 1 - 1 - i
    shifted i lt = omega arith

    set_at :
        (i : ℕ)
        → i ≡ c.sent
        → get_or (set c.actual_latency_start (c.sent % outstanding_max) t) (i % outstanding_max) 0
          ≡ t
    set_at i e = rw e (
        get_or-set_self c.actual_latency_start (c.sent % outstanding_max) t 0
          (omega (arith, v.room)))

-- ===== src/Wrk/Concluded.antt =====
-- What the counting of a response and the end of response_complete of wrk2/src/wrk.c leave alone.
use weaver_dsb.Prelude.{ℕ, ◌+◌, ◌-◌, ◌%◌, ◌<◌, ◌≡◌, refl, sym, ap, ◌∙◌, arith, List, inl, inr}
use weaver_dsb.Prelude.Tests.{◌==◌, Bool-cases}
use weaver_dsb.Prelude.Lists.{length, get_or}
use weaver_dsb.Prelude.Int.{add64}
use weaver_dsb.Wrk.{Connection, Local, connect_socket, reconnect_socket, outstanding_max}
use weaver_dsb.Wrk.Receive.{Response, hand_over, conclude}
use weaver_dsb.Wrk.Outstanding.{IsTracked}

-- What the counting of a response and the script leave alone.
pub record IsHandedOver (l l' : Local) : Type 0 where
  pub thread : l'.thread ≡ l.thread
  pub sent : l'.conn.sent ≡ l.conn.sent
  pub complete : l'.conn.complete ≡ l.conn.complete
  pub ring : l'.conn.actual_latency_start ≡ l.conn.actual_latency_start

pub hand_over_lem : (status : ℕ) (l : Local) → IsHandedOver l (hand_over status l)
unfolding hand_over
hand_over_lem status l = elim (Bool-cases (l.conn.headers.length == 0)) [
  | inl none_kept ↦
      rw none_kept (record { thread = refl; sent = refl; complete = refl; ring = refl })
  | inr kept ↦ rw kept (record { thread = refl; sent = refl; complete = refl; ring = refl })
]

pub IsTracked-ring :
    {starts : List ℕ} {c c' : Connection}
    → c'.sent ≡ c.sent
    → c'.complete ≡ c.complete
    → c'.actual_latency_start ≡ c.actual_latency_start
    → IsTracked starts c
    → IsTracked starts c'
IsTracked-ring {starts} {c} {c'} s d r v = record {
  all_sent = v.all_sent ∙ sym s;
  in_order = omega (arith, s, d, v.in_order);
  window = omega (arith, s, d, v.window);
  in_word = omega (arith, s, v.in_word);
  room = ap length r ∙ v.room;
  waiting = λ i lo hi.
      ap (λ (xs : List ℕ). get_or xs (i % outstanding_max) 0) r
      ∙ v.waiting i (omega (arith, d, lo)) (omega (arith, s, hi))
      ∙ ap (λ (k : ℕ). get_or starts (k - 1 - i) 0) (sym s);
}

pub record IsConcluded (l l' : Local) : Type 0 where
  pub conn : l'.conn ≡ record l.conn { complete = add64 l.conn.complete 1 }
  pub complete : l'.thread.complete ≡ l.thread.complete
  pub histogram : l'.thread.latency_histogram ≡ l.thread.latency_histogram

pub conclude_lem : (r : Response) (l : Local) → IsConcluded l (conclude r l)
unfolding conclude reconnect_socket connect_socket
conclude_lem r l = elim (Bool-cases r.keep_alive) [
  | inl alive ↦ rw alive (record { conn = refl; complete = refl; histogram = refl })
  | inr closes ↦ elim (Bool-cases r.opened) [
    | inl opened ↦ rw (closes, opened) (record { conn = refl; complete = refl; histogram = refl })
    | inr failed ↦ rw (closes, failed) (record { conn = refl; complete = refl; histogram = refl })
  ]
]

pub IsTracked-complete :
    {starts : List ℕ} {c : Connection}
    → IsTracked starts c
    → c.complete < c.sent
    → IsTracked starts (record c { complete = add64 c.complete 1 })
IsTracked-complete {starts} {c} v some_waiting =
    let grown : add64 c.complete 1 ≡ c.complete + 1 = omega (arith, some_waiting, v.in_word) in
    record {
      all_sent = v.all_sent;
      in_order = omega (arith, grown, some_waiting);
      window = omega (arith, grown, v.window);
      in_word = v.in_word;
      room = v.room;
      waiting = λ i lo hi. v.waiting i (omega (arith, grown, lo)) hi;
    }

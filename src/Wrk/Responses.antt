-- ===== src/Wrk/Responses.antt =====
-- response_complete of wrk2/src/wrk.c as a whole.
use weaver_dsb.Prelude.{
  ℕ, ◌+◌, ◌-◌, ◌^◌, ◌<◌, ◌≡◌, refl, sym, ap, ap₂, subst, ◌∙◌, arith, List, true, false,
}
use weaver_dsb.Prelude.Tests.{leb}
use weaver_dsb.Prelude.Lists.{get_or}
use weaver_dsb.Prelude.Int.{add64}
use weaver_dsb.Prelude.Float.{Float}
use weaver_dsb.Prelude.Checked.{returned, ◌>>=◌}
use weaver_dsb.Hdr.Layout.{capacity}
use weaver_dsb.Hdr.Index.{index_of}
use weaver_dsb.Hdr.Init.Laws.{IsValid}
use weaver_dsb.Hdr.Record.Laws.{counted}
use weaver_dsb.Wrk.{Config, Connection, Thread, Local}
use weaver_dsb.Wrk.Receive.{
  Response, tally, hand_over, started_at, measure, conclude, response_complete,
}
use weaver_dsb.Wrk.Outstanding.{IsTracked}
use weaver_dsb.Wrk.Latency.{measure_lem}
use weaver_dsb.Wrk.Concluded.{hand_over_lem, IsTracked-ring, conclude_lem, IsTracked-complete}

-- the start of the request that is answered next
abbrev pub oldest : List ℕ → Connection → ℕ
oldest starts c = get_or starts (c.sent - 1 - c.complete) 0

started_at_lem :
    {starts : List ℕ} {c : Connection}
    → IsTracked starts c
    → c.complete < c.sent
    → started_at c ≡ oldest starts c
unfolding started_at
started_at_lem {starts} {c} v some_waiting = v.waiting c.complete (omega arith) some_waiting

-- A response can be measured: a request waits for it that has a start before `now`, and the
-- histograms are valid and cover the latency.
pub record IsMeasurable (starts : List ℕ) (now : ℕ) (l : Local) : Type 0 where
  pub tracked : IsTracked starts l.conn
  pub some_waiting : l.conn.complete < l.conn.sent
  pub before : oldest starts l.conn < now
  pub in_word : now < 2 ^ 63
  pub valid : IsValid l.thread.latency_histogram
  pub valid_real : IsValid l.thread.real_latency_histogram
  pub covered : now - oldest starts l.conn < capacity l.thread.latency_histogram
  pub covered_real : now - oldest starts l.conn < capacity l.thread.real_latency_histogram

-- what a measured response leaves
pub record IsAnswered (starts : List ℕ) (now : ℕ) (l l' : Local) : Type 0 where
  pub tracked : IsTracked starts l'.conn
  pub completed : l'.conn.complete ≡ l.conn.complete + 1
  pub responses : l'.thread.complete ≡ add64 l.thread.complete 1
  pub histogram :
      l'.thread.latency_histogram
      ≡ counted l.thread.latency_histogram
          (index_of l.thread.latency_histogram (now - oldest starts l.conn))
          1

-- the state that the response is measured in
abbrev handed : Response → Local → Local
handed r l = hand_over r.status (record l { thread = tally r.status l.thread })

stop_at-handed : (r : Response) (l : Local) → (handed r l).thread.stop_at ≡ l.thread.stop_at
unfolding tally
stop_at-handed r l =
    ap (λ (t : Thread). t.stop_at)
      (hand_over_lem r.status (record l { thread = tally r.status l.thread })).thread

response_complete-measures :
    (f : Float) (cfg : Config) (r : Response) (l : Local)
    → cfg.record_all_responses ≡ true
    → r.now < l.thread.stop_at
    → response_complete f cfg r l
      ≡ (measure f cfg r.now (handed r l) >>= λ m. returned (conclude r m))
unfolding response_complete
response_complete-measures f cfg r l all early =
    let going : leb (handed r l).thread.stop_at r.now ≡ false =
      ground (arith, early, stop_at-handed r l) in
    simp (going, all)

module _ (f : Float) (cfg : Config) (r : Response) {starts : List ℕ} where
  -- measure, and the response counted
  answered_from :
      (l : Local)
      → IsMeasurable starts r.now l
      → (l' : Local) × ((measure f cfg r.now l >>= λ m. returned (conclude r m)) ≡ returned l')
        × IsTracked starts l'.conn
        × (l'.conn.complete ≡ l.conn.complete + 1)
        × (l'.thread.complete ≡ l.thread.complete)
        × (l'.thread.latency_histogram
            ≡ counted l.thread.latency_histogram
                (index_of l.thread.latency_histogram (r.now - oldest starts l.conn))
                1)
  answered_from l v =
      let e : started_at l.conn ≡ oldest starts l.conn = started_at_lem v.tracked v.some_waiting in
      let (m, ran, is) =
        measure_lem f cfg r.now l (rw e v.before) v.in_word v.valid v.valid_real (rw e v.covered)
          (rw e v.covered_real) in
      let end = conclude_lem r m in
      let conn : (conclude r m).conn ≡ record l.conn { complete = add64 l.conn.complete 1 } =
        end.conn
        ∙ ap (λ (c : Connection). record c { complete = add64 c.complete 1 }) is.same_conn in
      (
        conclude r m,
        rw ran refl,
        subst (IsTracked starts) (sym conn) (IsTracked-complete v.tracked v.some_waiting),
        ap (λ (c : Connection). c.complete) conn ∙ omega (arith, v.some_waiting, v.tracked.in_word),
        end.complete ∙ is.same_complete,
        end.histogram
            ∙ is.histogram
            ∙ ap
                (λ (k : ℕ).
                  counted l.thread.latency_histogram
                    (index_of l.thread.latency_histogram (r.now - k)) 1)
                e,
      )

  IsMeasurable-handed :
      (l : Local) → IsMeasurable starts r.now l → IsMeasurable starts r.now (handed r l)
  unfolding tally
  IsMeasurable-handed l v =
      let h = hand_over_lem r.status (record l { thread = tally r.status l.thread }) in
      let start : oldest starts (handed r l).conn ≡ oldest starts l.conn =
        ap₂ (λ (a b : ℕ). get_or starts (a - 1 - b) 0) h.sent h.complete in
      record {
        tracked = IsTracked-ring h.sent h.complete h.ring v.tracked;
        some_waiting = omega (arith, h.sent, h.complete, v.some_waiting);
        before = rw start v.before;
        in_word = v.in_word;
        valid = rw h.thread v.valid;
        valid_real = rw h.thread v.valid_real;
        covered = rw (h.thread, start) v.covered;
        covered_real = rw (h.thread, start) v.covered_real;
      }

  -- Before the end of the run, and if all responses are recorded, response_complete of a response
  -- that can be measured, in the sense of IsMeasurable, returns. It counts the response for its
  -- connection and its thread, adds to the histogram the time since the start of the oldest
  -- request that waits, and the ring still holds the starts of those that wait after it.
  pub response_complete_lem :
      (l : Local)
      → cfg.record_all_responses ≡ true
      → r.now < l.thread.stop_at
      → IsMeasurable starts r.now l
      → (l' : Local) × (response_complete f cfg r l ≡ returned l') × IsAnswered starts r.now l l'
  unfolding tally
  response_complete_lem l all early v =
      let h = hand_over_lem r.status (record l { thread = tally r.status l.thread }) in
      let start : oldest starts (handed r l).conn ≡ oldest starts l.conn =
        ap₂ (λ (a b : ℕ). get_or starts (a - 1 - b) 0) h.sent h.complete in
      let (l', ran, tracked, completed, responses, histogram) =
        answered_from (handed r l) (IsMeasurable-handed l v) in
      (
        l',
        response_complete-measures f cfg r l all early ∙ ran,
        record {
          tracked = tracked;
          completed = completed ∙ ap (λ (k : ℕ). k + 1) h.complete;
          responses = responses ∙ ap (λ (t : Thread). t.complete) h.thread;
          histogram =
              histogram
              ∙ ap₂
                  (λ (t : Thread) (k : ℕ).
                    counted t.latency_histogram (index_of t.latency_histogram (r.now - k)) 1)
                  h.thread start;
        },
      )

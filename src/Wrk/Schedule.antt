-- ===== src/Wrk/Schedule.antt =====
-- The schedule of a connection at a fixed rate in wrk2/src/wrk.c, and the steps that move it on.
use weaver_dsb.Prelude.{
  ℕ, ◌+◌, ◌*◌, ◌^◌, ◌≤◌, ◌<◌, ◌≡◌, refl, sym, ap, ◌∙◌, Bool, true, false, arith, dec_le, inl, inr,
}
use weaver_dsb.Prelude.Tests.{leb, ◌==◌, Bool-cases}
use weaver_dsb.Prelude.Int.{add64}
use weaver_dsb.Wrk.{Config, Connection, Local, connect_socket, reconnect_socket}
use weaver_dsb.Wrk.Pacing.{Drawn, gen_next, plan}
use weaver_dsb.Wrk.Send.{begin_request}

-- The connection keeps to a schedule of one request each `interval`, the first an interval after
-- its start: it plans at most one request ahead, and those sent were due by `now`.
pub record IsOnSchedule (o : ℕ × ℕ) (now : ℕ) (c : Connection) : Type 0 where
  pub ahead : c.sent ≤ c.estimate
  pub near : c.estimate ≤ c.sent + 1
  pub planned : c.thread_next ≡ c.thread_start + c.estimate * c.interval
  pub due : c.thread_start + c.sent * c.interval ≤ now
  pub gap : 1 ≤ c.interval
  pub gap_fits : c.interval < 2 ^ 62
  pub origin : (c.thread_start ≡ o.0) × (c.interval ≡ o.1)

-- The request planned next is due.
abbrev IsDue : ℕ → Connection → Type 0
IsDue now c = c.thread_start + (c.sent + 1) * c.interval ≤ now

pub later :
    {o : ℕ × ℕ} {now t : ℕ} {c : Connection} → now ≤ t → IsOnSchedule o now c → IsOnSchedule o t c
later le v = record {
  ahead = v.ahead;
  near = v.near;
  planned = v.planned;
  due = omega (arith, le, v.due);
  gap = v.gap;
  gap_fits = v.gap_fits;
  origin = v.origin;
}

pub sent-le : (sent interval t : ℕ) → 1 ≤ interval → sent * interval ≤ t → sent ≤ t
sent-le sent interval t one h = grind arith

module _ (cfg : Config) (fixed : cfg.dist ≡ 0) (drawn : Drawn) {o : ℕ × ℕ} {now : ℕ}
    {c : Connection} (small : now < 2 ^ 62) (v : IsOnSchedule o now c) where
  gen_next-fixed : gen_next cfg drawn c ≡ c.interval
  unfolding gen_next
  gen_next-fixed = rw fixed refl

  next_estimate : c.estimate ≤ c.sent → add64 c.estimate 1 ≡ c.sent + 1
  next_estimate le =
      let few : c.sent < 2 ^ 62 =
        omega (arith, small, sent-le c.sent c.interval now v.gap (omega (arith, v.due))) in
      omega (arith, le, v.ahead, few)

  next_time :
      c.estimate ≤ c.sent
      → add64 c.thread_next c.interval ≡ c.thread_start + (c.sent + 1) * c.interval
  next_time le =
      let same : c.estimate ≡ c.sent = omega (arith, le, v.ahead) in
      let planned : c.thread_next ≡ c.thread_start + c.sent * c.interval =
        v.planned ∙ ap (λ (k : ℕ). c.thread_start + k * c.interval) same in
      omega (arith, planned, v.due, small, v.gap_fits)

  -- what usec_to_next_send leaves
  pub record IsPlanned (c' : Connection) : Type 0 where
    pub on_schedule : IsOnSchedule o now c'
    pub one_ahead : c'.estimate ≡ c'.sent + 1
    pub same_sent : c'.sent ≡ c.sent
    pub same_written : c'.written ≡ c.written
    pub same_interval : c'.interval ≡ c.interval
    pub same_start : c'.thread_start ≡ c.thread_start

  pub plan-IsPlanned : IsPlanned (plan cfg drawn c)
  unfolding plan
  plan-IsPlanned = elim (dec_le c.estimate c.sent) [
    | yes le ↦
        let test : leb c.estimate c.sent ≡ true = ground arith in
        rw (test, gen_next-fixed)
          (record {
            on_schedule = record {
              ahead = omega (arith, next_estimate le);
              near = omega (arith, next_estimate le);
              planned =
                  next_time le
                  ∙ ap (λ (k : ℕ). c.thread_start + k * c.interval) (sym (next_estimate le));
              due = v.due;
              gap = v.gap;
              gap_fits = v.gap_fits;
              origin = v.origin;
            };
            one_ahead = next_estimate le;
            same_sent = refl;
            same_written = refl;
            same_interval = refl;
            same_start = refl;
          })
    | no gt ↦
        let test : leb c.estimate c.sent ≡ false = ground arith in
        rw test (record {
          on_schedule = v;
          one_ahead = omega (arith, gt, v.near);
          same_sent = refl;
          same_written = refl;
          same_interval = refl;
          same_start = refl;
        })
  ]

-- beginning a request that is due
pub begin_request-IsOnSchedule :
    {o : ℕ × ℕ} {now : ℕ} {c : Connection} (t : ℕ)
    → now < 2 ^ 62
    → IsOnSchedule o now c
    → (c.written ≡ 0 → (c.estimate ≡ c.sent + 1) × (c.thread_next ≤ now))
    → IsOnSchedule o now (begin_request t c)
unfolding begin_request
begin_request-IsOnSchedule {o} {now} {c} t small v first = elim (Bool-cases (c.written == 0)) [
  | inl fresh ↦
      let (ahead, due) = first (ground (arith, fresh)) in
      let next : c.thread_next ≡ c.thread_start + (c.sent + 1) * c.interval =
        v.planned ∙ ap (λ (k : ℕ). c.thread_start + k * c.interval) ahead in
      let few : c.sent < 2 ^ 62 =
        omega (arith, small, sent-le c.sent c.interval now v.gap (omega (arith, v.due))) in
      let grown : add64 c.sent 1 ≡ c.sent + 1 = omega (arith, few) in
      rw fresh (record {
        ahead = omega (arith, grown, ahead);
        near = omega (arith, grown, ahead);
        planned = v.planned;
        due = rw grown (omega (arith, next, due));
        gap = v.gap;
        gap_fits = v.gap_fits;
        origin = v.origin;
      })
  | inr going ↦ rw going v
]

-- The other fields do not matter.
pub untouched :
    {o : ℕ × ℕ} {now : ℕ} {c : Connection} (length written : ℕ)
    → IsOnSchedule o now c
    → IsOnSchedule o now (record c { length = length; written = written })
untouched length written v = record {
  ahead = v.ahead;
  near = v.near;
  planned = v.planned;
  due = v.due;
  gap = v.gap;
  gap_fits = v.gap_fits;
  origin = v.origin;
}

pub connect_socket-conn : (opened : Bool) (l : Local) → (connect_socket opened l).conn ≡ l.conn
unfolding connect_socket
connect_socket-conn true l = refl
connect_socket-conn false l = refl

pub reconnect_socket-conn : (opened : Bool) (l : Local) → (reconnect_socket opened l).conn ≡ l.conn
unfolding reconnect_socket connect_socket
reconnect_socket-conn true l = refl
reconnect_socket-conn false l = refl

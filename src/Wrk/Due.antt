-- ===== src/Wrk/Due.antt =====
-- When the next request of a connection of wrk2/src/wrk.c is due, and what sending one counts.
use weaver_dsb.Prelude.{
  ℕ, ◌+◌, ◌-◌, ◌*◌, ◌^◌, ◌≤◌, ◌<◌, ◌≡◌, refl, ap, ◌∙◌, true, false, ◌&&◌, arith, inl, inr,
}
use weaver_dsb.Prelude.Tests.{ltb, ◌==◌, Bool-cases}
use weaver_dsb.Prelude.Int.{add64}
use weaver_dsb.Wrk.{Config, Connection, Local, ok}
use weaver_dsb.Wrk.Pacing.{Drawn, plan, usec_to_next_send}
use weaver_dsb.Wrk.Send.{Writing, write_request, wrote, count_written, prepare, begin_request}
use weaver_dsb.Wrk.Schedule.{IsOnSchedule, plan-IsPlanned}

-- the time at which the next request is due
abbrev pub due_at : Connection → ℕ
due_at c = c.thread_start + (c.sent + 1) * c.interval

count_written-sent : (n : ℕ) (l : Local) → (count_written n l).conn.sent ≡ l.conn.sent
unfolding count_written
count_written-sent n l = elim (Bool-cases (add64 l.conn.written n == l.conn.length)) [
  | inl whole ↦ rw whole refl
  | inr part ↦ rw part refl
]

begin_request-sent :
    (t : ℕ) (c : Connection) → c.written ≡ 0 → (begin_request t c).sent ≡ add64 c.sent 1
unfolding begin_request
begin_request-sent t c e = let test : (c.written == 0) ≡ true = ground (arith, e) in rw test refl

prepare-conn :
    (cfg : Config) (w : Writing) (l : Local)
    → ((prepare cfg w l).conn.sent ≡ l.conn.sent)
      × ((prepare cfg w l).conn.written ≡ l.conn.written)
unfolding prepare
prepare-conn cfg w l = elim (Bool-cases ((l.conn.written == 0) && cfg.dynamic)) [
  | inl fresh ↦ rw fresh (refl, refl)
  | inr other ↦ rw other (refl, refl)
]

-- a write that the socket takes
pub write_request-sent :
    (cfg : Config) (w : Writing) (l : Local)
    → w.status ≡ ok
    → l.conn.written ≡ 0
    → (write_request cfg w l).conn.sent ≡ add64 l.conn.sent 1
unfolding write_request wrote prepare
write_request-sent cfg w l e fresh =
    let (same, unwritten) = prepare-conn cfg w l in
    let l' = prepare cfg w l in
    rw e (
      count_written-sent w.n (record l' { conn = begin_request w.written_at l'.conn })
      ∙ begin_request-sent w.written_at l'.conn (unwritten ∙ fresh)
      ∙ ap (λ (k : ℕ). add64 k 1) same)

module _ (cfg : Config) (fixed : cfg.dist ≡ 0) where
  pub due-plan :
      {o : ℕ × ℕ} (drawn : Drawn) {now : ℕ} {c : Connection}
      → now < 2 ^ 62
      → IsOnSchedule o now c
      → (plan cfg drawn c).thread_start
          + ((plan cfg drawn c).sent + 1) * (plan cfg drawn c).interval
        ≡ due_at c
  due-plan drawn {now} {c} small v =
      let q = plan-IsPlanned cfg fixed drawn small v in
      rw (q.same_start, q.same_sent, q.same_interval) refl

  -- what is planned is what is due next
  pub plan-next :
      {o : ℕ × ℕ} (drawn : Drawn) {now : ℕ} {c : Connection}
      → now < 2 ^ 62
      → IsOnSchedule o now c
      → (plan cfg drawn c).thread_next ≡ due_at c
  plan-next drawn {now} {c} small v =
      let q = plan-IsPlanned cfg fixed drawn small v in
      q.on_schedule.planned
      ∙ ap (λ (k : ℕ). (plan cfg drawn c).thread_start + k * (plan cfg drawn c).interval)
          q.one_ahead
      ∙ due-plan drawn small v

  pub usec-early :
      {o : ℕ × ℕ} (drawn : Drawn) {now : ℕ} {c : Connection}
      → now < 2 ^ 62
      → IsOnSchedule o now c
      → now < due_at c
      → usec_to_next_send cfg drawn now c ≡ (plan cfg drawn c, due_at c - now)
  unfolding usec_to_next_send
  usec-early drawn {now} {c} small v early =
      let next = plan-next drawn small v in
      let test : ltb now (plan cfg drawn c).thread_next ≡ true = ground (arith, next) in
      rw test (ap (λ (k : ℕ). (plan cfg drawn c, k - now)) next)

  pub usec-due :
      {o : ℕ × ℕ} (drawn : Drawn) {now : ℕ} {c : Connection}
      → now < 2 ^ 62
      → IsOnSchedule o now c
      → due_at c ≤ now
      → usec_to_next_send cfg drawn now c ≡ (plan cfg drawn c, 0)
  unfolding usec_to_next_send
  usec-due drawn {now} {c} small v due =
      let next = plan-next drawn small v in
      let test : ltb now (plan cfg drawn c).thread_next ≡ false = ground (arith, next) in
      rw test refl

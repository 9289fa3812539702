-- ===== src/Wrk/Progress.antt =====
-- A connection of wrk2/src/wrk.c that waits for its next request comes to send it.
use weaver_dsb.Prelude.{
  ℕ, ◌+◌, ◌-◌, ◌^◌, ◌≤◌, ◌<◌, ◌≡◌, refl, sym, ap, subst, ◌∙◌, true, false, [], ◌∷◌, ◌++◌, arith,
}
use weaver_dsb.Prelude.Tests.{◌==◌}
use weaver_dsb.Prelude.Int.{ℤ, add64}
use weaver_dsb.Prelude.Float.{Float}
use weaver_dsb.Wrk.{
  Config, Local, ok, create_file_event, delete_file_event, create_time_event, writable,
}
use weaver_dsb.Wrk.Pacing.{ae_nomore, Drawn, plan, delay_request, msec_to_wait}
use weaver_dsb.Wrk.Send.{Writing, socket_writeable}
use weaver_dsb.Wrk.Schedule.{IsOnSchedule, plan-IsPlanned, later, sent-le}
use weaver_dsb.Wrk.Due.{due_at, write_request-sent, usec-early, usec-due, due-plan}

module _ (f : Float) (cfg : Config) (fixed : cfg.dist ≡ 0) where
  -- before its time, a connection goes to wait
  waits :
      {o : ℕ × ℕ} (w : Writing) (l : Local)
      → w.now < 2 ^ 62
      → IsOnSchedule o w.now l.conn
      → l.conn.written ≡ 0
      → w.now < due_at l.conn
      → socket_writeable f cfg w l ≡ record l {
        conn = plan cfg w.drawn l.conn;
        calls =
            (l.calls ++ (delete_file_event writable ∷ []))
            ++ (create_time_event (msec_to_wait f (due_at l.conn - w.now)) ∷ []);
      }
  unfolding socket_writeable
  waits w l small v fresh early =
      let first : (l.conn.written == 0) ≡ true = ground (arith, fresh) in
      let later_on : (due_at l.conn - w.now == 0) ≡ false = ground (arith, early) in
      rw (first, usec-early cfg fixed w.drawn small v early, later_on) refl

  -- at its time, it is woken
  wakes :
      {o : ℕ × ℕ} (drawn : Drawn) (now : ℕ) (l : Local)
      → now < 2 ^ 62
      → IsOnSchedule o now l.conn
      → due_at l.conn ≤ now
      → delay_request f cfg drawn now l ≡ (
        record l {
          conn = plan cfg drawn l.conn;
          calls = l.calls ++ (create_file_event writable ∷ []);
        },
        ae_nomore,
      )
  unfolding delay_request
  wakes drawn now l small v due = rw (usec-due cfg fixed drawn small v due) refl

  -- and it sends
  sends :
      {o : ℕ × ℕ} (w : Writing) (l : Local)
      → w.now < 2 ^ 62
      → IsOnSchedule o w.now l.conn
      → l.conn.written ≡ 0
      → due_at l.conn ≤ w.now
      → w.status ≡ ok
      → (socket_writeable f cfg w l).conn.sent ≡ add64 l.conn.sent 1
  unfolding socket_writeable
  sends w l small v fresh due taken =
      let first : (l.conn.written == 0) ≡ true = ground (arith, fresh) in
      let q = plan-IsPlanned cfg fixed w.drawn small v in
      rw (first, usec-due cfg fixed w.drawn small v due)
        (write_request-sent cfg w (record l { conn = plan cfg w.drawn l.conn }) taken
            (q.same_written ∙ fresh)
          ∙ ap (λ (k : ℕ). add64 k 1) q.same_sent)

  -- At a fixed rate, a connection on its schedule with nothing half written, whose next request is
  -- not due when its socket can be written: it goes to wait, and asks for a time event; run when
  -- the request is due, the event asks for the socket again and ends; and once the socket can be
  -- written and takes bytes, one request more has been sent.
  pub next_request-sent :
      {o : ℕ × ℕ} (before at : Writing) (drawn : Drawn) (t : ℕ) (l : Local)
      → IsOnSchedule o before.now l.conn
      → l.conn.written ≡ 0
      → before.now < due_at l.conn
      → due_at l.conn ≤ t
      → t ≤ at.now
      → at.now < 2 ^ 62
      → at.status ≡ ok
      → ((socket_writeable f cfg before l).calls
          ≡ (l.calls ++ (delete_file_event writable ∷ []))
            ++ (create_time_event (msec_to_wait f (due_at l.conn - before.now)) ∷ []))
        × ((delay_request f cfg drawn t (socket_writeable f cfg before l)).0.calls
            ≡ (socket_writeable f cfg before l).calls ++ (create_file_event writable ∷ []))
        × ((delay_request f cfg drawn t (socket_writeable f cfg before l)).1 ≡ ae_nomore)
        × ((socket_writeable f cfg at
              (delay_request f cfg drawn t (socket_writeable f cfg before l)).0).conn.sent
            ≡ l.conn.sent + 1)
  next_request-sent {o} before at drawn t l v fresh early due t_le small taken =
      let c = plan cfg before.drawn l.conn in
      let q =
        plan-IsPlanned cfg fixed before.drawn {c = l.conn} (omega (arith, early, due, t_le, small))
          v in
      let l1 = socket_writeable f cfg before l in
      let wait = waits before l (omega (arith, early, due, t_le, small)) v fresh early in
      let on1 : IsOnSchedule o t l1.conn =
        subst (λ (k : Local). IsOnSchedule o t k.conn) (sym wait)
          (later (omega (arith, early, due)) q.on_schedule) in
      let due1 : due_at l1.conn ≤ t =
        subst (λ (k : Local). due_at k.conn ≤ t) (sym wait)
          (omega (
            arith,
            due,
            due-plan cfg fixed before.drawn {c = l.conn} (omega (arith, early, due, t_le, small)) v,
          )) in
      let q2 = plan-IsPlanned cfg fixed drawn (omega (arith, t_le, small)) on1 in
      let wake = wakes drawn t l1 (omega (arith, t_le, small)) on1 due1 in
      let l2 = (delay_request f cfg drawn t l1).0 in
      let sent2 : l2.conn.sent ≡ l.conn.sent =
        ap (λ (r : Local × ℤ). r.0.conn.sent) wake
        ∙ q2.same_sent
        ∙ ap (λ (k : Local). k.conn.sent) wait
        ∙ q.same_sent in
      let fresh2 : l2.conn.written ≡ 0 =
        ap (λ (r : Local × ℤ). r.0.conn.written) wake
        ∙ q2.same_written
        ∙ ap (λ (k : Local). k.conn.written) wait
        ∙ q.same_written
        ∙ fresh in
      let on2 : IsOnSchedule o at.now l2.conn =
        subst (λ (r : Local × ℤ). IsOnSchedule o at.now r.0.conn) (sym wake)
          (later t_le q2.on_schedule) in
      let due2 : due_at l2.conn ≤ at.now =
        subst (λ (r : Local × ℤ). due_at r.0.conn ≤ at.now) (sym wake)
          (omega (
            arith,
            t_le,
            due1,
            due-plan cfg fixed drawn {c = l1.conn} (omega (arith, t_le, small)) on1,
          )) in
      let few : l.conn.sent < 2 ^ 62 = omega (
        arith,
        early,
        due,
        t_le,
        small,
        sent-le l.conn.sent l.conn.interval before.now v.gap (omega (arith, v.due)),
      ) in
      (
        ap (λ (k : Local). k.calls) wait,
        ap (λ (r : Local × ℤ). r.0.calls) wake,
        ap (λ (r : Local × ℤ). r.1) wake,
        sends at l2 small on2 fresh2 due2 taken
            ∙ ap (λ (k : ℕ). add64 k 1) sent2
            ∙ omega (arith, few),
      )

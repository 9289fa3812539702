-- ===== src/Wrk/Sends.antt =====
-- socket_writeable and delay_request of wrk2/src/wrk.c keep a connection to its schedule.
use weaver_dsb.Prelude.{
  ℕ, ◌+◌, ◌^◌, ◌≤◌, ◌<◌, ◌≡◌, refl, true, false, arith, ◌&&◌, dec_le, inl, inr,
}
use weaver_dsb.Prelude.Tests.{ltb, ◌==◌, Bool-cases}
use weaver_dsb.Prelude.Int.{add64}
use weaver_dsb.Prelude.Float.{Float}
use weaver_dsb.Wrk.{Config, Connection, Local, Status, ok, error, retry}
use weaver_dsb.Wrk.Pacing.{Drawn, usec_to_next_send, plan, delay_request}
use weaver_dsb.Wrk.Send.{
  Writing, socket_writeable, write_request, wrote, count_written, prepare, begin_request,
}
use weaver_dsb.Wrk.Schedule.{
  IsOnSchedule, untouched, reconnect_socket-conn, plan-IsPlanned, begin_request-IsOnSchedule,
}

-- a request that has begun, or that is planned and due
abbrev MayWrite : ℕ → Connection → Type 0
MayWrite now c = c.written ≡ 0 → (c.estimate ≡ c.sent + 1) × (c.thread_next ≤ now)

count_written-IsOnSchedule :
    {o : ℕ × ℕ} {now : ℕ} (n : ℕ) (l : Local)
    → IsOnSchedule o now l.conn
    → IsOnSchedule o now (count_written n l).conn
unfolding count_written
count_written-IsOnSchedule n l v = elim (Bool-cases (add64 l.conn.written n == l.conn.length)) [
  | inl whole ↦ rw whole (untouched l.conn.length 0 v)
  | inr part ↦ rw part (untouched l.conn.length (add64 l.conn.written n) v)
]

wrote-IsOnSchedule :
    {o : ℕ × ℕ} (w : Writing) (l : Local)
    → w.now < 2 ^ 62
    → IsOnSchedule o w.now l.conn
    → MayWrite w.now l.conn
    → IsOnSchedule o w.now (wrote w l).conn
unfolding wrote
wrote-IsOnSchedule w l small v may =
    count_written-IsOnSchedule w.n (record l { conn = begin_request w.written_at l.conn })
      (begin_request-IsOnSchedule w.written_at small v may)

prepare-IsOnSchedule :
    {o : ℕ × ℕ} (cfg : Config) (w : Writing) (l : Local)
    → IsOnSchedule o w.now l.conn
    → MayWrite w.now l.conn
    → IsOnSchedule o w.now (prepare cfg w l).conn × MayWrite w.now (prepare cfg w l).conn
unfolding prepare
prepare-IsOnSchedule cfg w l v may = elim (Bool-cases ((l.conn.written == 0) && cfg.dynamic)) [
  | inl fresh ↦ rw fresh (untouched w.request_length l.conn.written v, may)
  | inr other ↦ rw other (v, may)
]

write_request-IsOnSchedule :
    {o : ℕ × ℕ} (cfg : Config) (w : Writing) (l : Local)
    → w.now < 2 ^ 62
    → IsOnSchedule o w.now l.conn
    → MayWrite w.now l.conn
    → IsOnSchedule o w.now (write_request cfg w l).conn
unfolding write_request prepare wrote
write_request-IsOnSchedule {o} cfg w l small v may =
    let (v', may') = prepare-IsOnSchedule cfg w l v may in by_status w.status refl v' may'
  where
    by_status :
        (s : Status)
        → w.status ≡ s
        → IsOnSchedule o w.now (prepare cfg w l).conn
        → MayWrite w.now (prepare cfg w l).conn
        → IsOnSchedule o w.now (write_request cfg w l).conn
    by_status ok e v' may' = rw e (wrote-IsOnSchedule w (prepare cfg w l) small v' may')
    by_status error e v' may' = rw (e, reconnect_socket-conn) v'
    by_status retry e v' may' = rw e v'

module _ (f : Float) (cfg : Config) (fixed : cfg.dist ≡ 0) where
  planned-conn :
      (drawn : Drawn) (now : ℕ) (c : Connection)
      → (usec_to_next_send cfg drawn now c).0 ≡ plan cfg drawn c
  unfolding usec_to_next_send
  planned-conn drawn now c = refl

  wait-due :
      (drawn : Drawn) (now : ℕ) (c : Connection)
      → (plan cfg drawn c).thread_next ≤ now
      → (usec_to_next_send cfg drawn now c).1 ≡ 0
  unfolding usec_to_next_send
  wait-due drawn now c due =
      let test : ltb now (plan cfg drawn c).thread_next ≡ false = ground arith in rw test refl

  wait-early :
      (drawn : Drawn) (now : ℕ) (c : Connection)
      → now < (plan cfg drawn c).thread_next
      → (usec_to_next_send cfg drawn now c).1 == 0 ≡ false
  unfolding usec_to_next_send
  wait-early drawn now c early =
      let test : ltb now (plan cfg drawn c).thread_next ≡ true = ground arith in
      rw test (ground arith)

  may_write :
      {o : ℕ × ℕ} (drawn : Drawn) {now : ℕ} {c : Connection}
      → now < 2 ^ 62
      → IsOnSchedule o now c
      → (plan cfg drawn c).thread_next ≤ now
      → MayWrite now (plan cfg drawn c)
  may_write drawn small v due _ = ((plan-IsPlanned cfg fixed drawn small v).one_ahead, due)

  pub socket_writeable-IsOnSchedule :
      {o : ℕ × ℕ} (w : Writing) (l : Local)
      → w.now < 2 ^ 62
      → IsOnSchedule o w.now l.conn
      → IsOnSchedule o w.now (socket_writeable f cfg w l).conn
  unfolding socket_writeable
  socket_writeable-IsOnSchedule w l small v = elim (Bool-cases (l.conn.written == 0)) [
    | inr going ↦ rw going (
        write_request-IsOnSchedule cfg w l small v (λ fresh. absurd (ground (arith, going, fresh))))
    | inl fresh ↦
        let planned = (plan-IsPlanned cfg fixed w.drawn small v).on_schedule in
        elim (dec_le (plan cfg w.drawn l.conn).thread_next w.now) [
          | yes due ↦
              rw (fresh, wait-due w.drawn w.now l.conn due, planned-conn w.drawn w.now l.conn)
                (write_request-IsOnSchedule cfg w (record l { conn = plan cfg w.drawn l.conn })
                  small planned (may_write w.drawn small v due))
          | no early ↦
              rw
                (
                  fresh,
                  wait-early w.drawn w.now l.conn (omega (arith, early)),
                  planned-conn w.drawn w.now l.conn,
                )
                planned
        ]
  ]

  pub delay_request-IsOnSchedule :
      {o : ℕ × ℕ} (drawn : Drawn) (now : ℕ) (l : Local)
      → now < 2 ^ 62
      → IsOnSchedule o now l.conn
      → IsOnSchedule o now (delay_request f cfg drawn now l).0.conn
  unfolding delay_request
  delay_request-IsOnSchedule drawn now l small v =
      let planned = (plan-IsPlanned cfg fixed drawn small v).on_schedule in
      elim (Bool-cases ((usec_to_next_send cfg drawn now l.conn).1 == 0)) [
        | inl due ↦ rw (due, planned-conn drawn now l.conn) planned
        | inr early ↦ rw (early, planned-conn drawn now l.conn) planned
      ]

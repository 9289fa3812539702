-- ===== src/Wrk/Send.antt =====
-- socket_connected and socket_writeable of wrk2/src/wrk.c.
use weaver_dsb.Prelude.{ℕ, ◌%◌, Bool, ◌&&◌}
use weaver_dsb.Prelude.Tests.{◌==◌, if◌then◌else◌}
use weaver_dsb.Prelude.Lists.{set}
use weaver_dsb.Prelude.Int.{add64}
use weaver_dsb.Prelude.Float.{Float}
use weaver_dsb.Wrk.{
  Config, Connection, Local, call, create_file_event, delete_file_event, create_time_event,
  script_request, parser_init, readable, writable, Status, ok, error, retry, reconnect_socket,
  count32, outstanding_max,
}
use weaver_dsb.Wrk.Pacing.{Drawn, usec_to_next_send, msec_to_wait}

-- `sock.connect` gives the status.
unfoldable pub socket_connected : Status → Bool → Local → Local
socket_connected ok opened l = call (create_file_event writable) (
    call (create_file_event readable)
      (call parser_init (record l { conn = record l.conn { written = 0 } })))
socket_connected error opened l = reconnect_socket opened (record l {
  thread = record l.thread {
    errors = record l.thread.errors { connect = count32 l.thread.errors.connect };
  };
})
socket_connected retry opened l = l

-- What the environment answers in one call of socket_writeable: the clock, the gap drawn, the
-- length of the request that the script gives, the status of `sock.write` with the bytes written,
-- the clock after it, and whether a new connection could be opened.
pub record Writing : Type 0 where
  pub now : ℕ
  pub drawn : Drawn
  pub request_length : ℕ
  pub status : Status
  pub n : ℕ
  pub written_at : ℕ
  pub opened : Bool

-- The first bytes of a request set its start.
unfoldable pub begin_request : ℕ → Connection → Connection
begin_request now c =
    if c.written == 0
    then record c {
      start = now;
      actual_latency_start = set c.actual_latency_start (c.sent % outstanding_max) now;
      sent = add64 c.sent 1;
    }
    else c

-- `c->written += n`, and the next request once the whole is written
unfoldable pub count_written : ℕ → Local → Local
count_written n l =
    let total = add64 l.conn.written n in
    if total == l.conn.length
    then call (create_file_event writable)
        (call (delete_file_event writable) (record l { conn = record l.conn { written = 0 } }))
    else record l { conn = record l.conn { written = total } }

unfoldable pub wrote : Writing → Local → Local
wrote w l = count_written w.n (record l { conn = begin_request w.written_at l.conn })

-- the request of a script that is not static
unfoldable pub prepare : Config → Writing → Local → Local
prepare cfg w l =
    if (l.conn.written == 0) && cfg.dynamic
    then call script_request (record l { conn = record l.conn { length = w.request_length } })
    else l

unfoldable pub write_request : Config → Writing → Local → Local
write_request cfg w l =
    let l' = prepare cfg w l in
    elim w.status [
      | ok ↦ wrote w l'
      | error ↦ reconnect_socket w.opened (record l' {
        thread = record l'.thread {
          errors = record l'.thread.errors { write = count32 l'.thread.errors.write };
        };
      })
      | retry ↦ l'
    ]

unfoldable pub socket_writeable : Float → Config → Writing → Local → Local
socket_writeable f cfg w l =
    if l.conn.written == 0
    then (let (c, usec) = usec_to_next_send cfg w.drawn w.now l.conn in
        let l' = record l { conn = c } in
        if usec == 0
        then write_request cfg w l'
        else call (create_time_event (msec_to_wait f usec)) (call (delete_file_event writable) l'))
    else write_request cfg w l

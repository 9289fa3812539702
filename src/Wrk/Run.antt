-- ===== src/Wrk/Run.antt =====
-- Sequences of calls of the handlers of wrk2/src/wrk.c for one connection.
use weaver_dsb.Prelude.{ℕ, ◌+◌, ◌*◌, ◌^◌, ◌≤◌, ◌<◌, ◌≡◌, refl, Bool, List, arith}
use weaver_dsb.Prelude.Float.{Float}
use weaver_dsb.Prelude.Checked.{returned}
use weaver_dsb.Wrk.{Config, Local, Status, ok, error, retry, reconnect_socket}
use weaver_dsb.Wrk.Pacing.{Drawn, delay_request, delayed_initial_connect}
use weaver_dsb.Wrk.Send.{Writing, socket_writeable, socket_connected}
use weaver_dsb.Wrk.Read.{Reading, socket_readable}
use weaver_dsb.Wrk.Callbacks.{socket_readable-IsOnSchedule}
use weaver_dsb.Wrk.Schedule.{
  IsOnSchedule, later, untouched, connect_socket-conn, reconnect_socket-conn,
}
use weaver_dsb.Wrk.Sends.{socket_writeable-IsOnSchedule, delay_request-IsOnSchedule}

-- What the event loop runs for one connection, with the clock, which does not go back.
pub data Step (f : Float) (cfg : Config) : Local × ℕ → Local × ℕ → Type 0 where
  writeable :
      {l : Local} {now : ℕ} (w : Writing)
      → now ≤ w.now
      → Step f cfg (l, now) (socket_writeable f cfg w l, w.now)
  delayed :
      {l : Local} {now : ℕ} (drawn : Drawn) (t : ℕ)
      → now ≤ t
      → Step f cfg (l, now) ((delay_request f cfg drawn t l).0, t)
  connected :
      {l : Local} {now : ℕ} (s : Status) (opened : Bool) (t : ℕ)
      → now ≤ t
      → Step f cfg (l, now) (socket_connected s opened l, t)
  reconnected :
      {l : Local} {now : ℕ} (opened : Bool) (t : ℕ)
      → now ≤ t
      → Step f cfg (l, now) (reconnect_socket opened l, t)
  readable :
      {l l' : Local} {now : ℕ} (opened : Bool) (xs : List Reading) (t : ℕ)
      → now ≤ t
      → socket_readable f cfg opened xs l ≡ returned l'
      → Step f cfg (l, now) (l', t)

pub data Run (f : Float) (cfg : Config) : Local × ℕ → Local × ℕ → Type 0 where
  begun : {s : Local × ℕ} → Run f cfg s s
  then_step : {s t u : Local × ℕ} → Run f cfg s t → Step f cfg t u → Run f cfg s u

module _ (f : Float) (cfg : Config) where
  pub Step-time : {s t : Local × ℕ} → Step f cfg s t → s.1 ≤ t.1
  Step-time (writeable w le) = le
  Step-time (delayed drawn t le) = le
  Step-time (connected s opened t le) = le
  Step-time (reconnected opened t le) = le
  Step-time (readable opened xs t le e) = le

module _ (f : Float) (cfg : Config) (fixed : cfg.dist ≡ 0) where
  socket_connected-IsOnSchedule :
      {o : ℕ × ℕ} {now : ℕ} (s : Status) (opened : Bool) (l : Local)
      → IsOnSchedule o now l.conn
      → IsOnSchedule o now (socket_connected s opened l).conn
  unfolding socket_connected
  socket_connected-IsOnSchedule ok opened l v = untouched l.conn.length 0 v
  socket_connected-IsOnSchedule error opened l v = rw reconnect_socket-conn v
  socket_connected-IsOnSchedule retry opened l v = v

  pub Step-IsOnSchedule :
      {o : ℕ × ℕ} {s t : Local × ℕ}
      → Step f cfg s t
      → t.1 < 2 ^ 62
      → IsOnSchedule o s.1 s.0.conn
      → IsOnSchedule o t.1 t.0.conn
  Step-IsOnSchedule (writeable {l} w le) small v =
      socket_writeable-IsOnSchedule f cfg fixed w l small (later le v)
  Step-IsOnSchedule (delayed {l} drawn t le) small v =
      delay_request-IsOnSchedule f cfg fixed drawn t l small (later le v)
  Step-IsOnSchedule (connected {l} s opened t le) small v =
      socket_connected-IsOnSchedule s opened l (later le v)
  Step-IsOnSchedule (reconnected {l} opened t le) small v = rw reconnect_socket-conn (later le v)
  Step-IsOnSchedule (readable {l} {l'} opened xs t le e) small v =
      socket_readable-IsOnSchedule f cfg opened xs l l' (later le v) e

  Run-IsOnSchedule :
      {o : ℕ × ℕ} {s t : Local × ℕ}
      → Run f cfg s t
      → t.1 < 2 ^ 62
      → IsOnSchedule o s.1 s.0.conn
      → IsOnSchedule o t.1 t.0.conn
  Run-IsOnSchedule begun small v = v
  Run-IsOnSchedule (then_step run step) small v =
      Step-IsOnSchedule step small
        (Run-IsOnSchedule run (omega (arith, Step-time f cfg step, small)) v)

  -- The first connect starts the schedule.
  pub initial :
      (opened : Bool) (l : Local) (start : ℕ)
      → l.conn.sent ≡ 0
      → l.conn.estimate ≡ 0
      → 1 ≤ l.conn.interval
      → l.conn.interval < 2 ^ 62
      → IsOnSchedule (start, l.conn.interval) start (delayed_initial_connect start opened l).conn
  unfolding delayed_initial_connect
  initial opened l start e g one fits = rw connect_socket-conn (record {
    ahead = omega (arith, e);
    near = omega (arith, g);
    planned = rw g (omega arith);
    due = rw e (omega arith);
    gap = one;
    gap_fits = fits;
    origin = (refl, refl);
  })

  -- From the first connect of a connection that has sent nothing, at a fixed distribution with an
  -- interval from 1 below 2^62, and up to any time below 2^62: after any sequence of the
  -- handlers of Step, with a clock that does not go back, the requests sent were all due, one
  -- interval after another from the connection's start, and at most one more is planned.
  pub Run-schedule :
      (opened : Bool) (l : Local) (start : ℕ) (l' : Local) (now : ℕ)
      → l.conn.sent ≡ 0
      → l.conn.estimate ≡ 0
      → 1 ≤ l.conn.interval
      → l.conn.interval < 2 ^ 62
      → now < 2 ^ 62
      → Run f cfg (delayed_initial_connect start opened l, start) (l', now)
      → (l'.conn.thread_start + l'.conn.sent * l'.conn.interval ≤ now)
        × (l'.conn.sent ≤ l'.conn.estimate)
        × (l'.conn.estimate ≤ l'.conn.sent + 1)
  Run-schedule opened l start l' now e g one fits small run =
      let v = Run-IsOnSchedule run small (initial opened l start e g one fits) in
      (v.due, v.ahead, v.near)

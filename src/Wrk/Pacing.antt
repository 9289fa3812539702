-- ===== src/Wrk/Pacing.antt =====
-- When a request is due: gen_next, usec_to_next_send, delay_request and delayed_initial_connect of
-- wrk2/src/wrk.c.
use weaver_dsb.Prelude.{ℕ, ◌-◌, Bool}
use weaver_dsb.Prelude.Tests.{ltb, leb, ◌==◌, if◌then◌else◌}
use weaver_dsb.Prelude.Int.{ℤ, pos, negsuc, add64}
use weaver_dsb.Prelude.Float.{Float}
use weaver_dsb.Wrk.{Config, Connection, Local, call, create_file_event, writable, connect_socket}

-- What gen_exp and gen_zipf give, where the distribution of the gaps asks for them.
pub record Drawn : Type 0 where
  pub gen_exp : ℕ
  pub gen_zipf : ℕ

unfoldable pub gen_next : Config → Drawn → Connection → ℕ
gen_next cfg drawn c =
    if cfg.dist == 0
    then c.interval
    else (if cfg.dist == 1
        then drawn.gen_exp
        else (if cfg.dist == 2 then 0 else (if cfg.dist == 3 then drawn.gen_zipf else 0)))

-- the step to the next request, once the last one is sent
unfoldable pub plan : Config → Drawn → Connection → Connection
plan cfg drawn c =
    if leb c.estimate c.sent
    then record c {
      estimate = add64 c.estimate 1;
      thread_next = add64 c.thread_next (gen_next cfg drawn c);
    }
    else c

unfoldable pub usec_to_next_send : Config → Drawn → ℕ → Connection → Connection × ℕ
usec_to_next_send cfg drawn now c =
    let c' = plan cfg drawn c in (c', if ltb now c'.thread_next then (c'.thread_next - now) else 0)

-- `round((time_usec_to_wait / 1000.0L) + 0.5)`
pub msec_to_wait : Float → ℕ → ℕ
msec_to_wait f usec = f.round (f.plus (f.over (f.of_ℕ usec) (f.literal 1000 1)) (f.literal 5 10))

-- AE_NOMORE, on which a time event is not run again
abbrev pub ae_nomore : ℤ
ae_nomore = negsuc 0

-- The time event: it runs again after the milliseconds that are returned.
unfoldable pub delay_request : Float → Config → Drawn → ℕ → Local → Local × ℤ
delay_request f cfg drawn now l =
    let (c, usec) = usec_to_next_send cfg drawn now l.conn in
    let l' = record l { conn = c } in
    if usec == 0
    then (call (create_file_event writable) l', ae_nomore)
    else (l', pos (msec_to_wait f usec))

unfoldable pub delayed_initial_connect : ℕ → Bool → Local → Local
delayed_initial_connect now opened l =
    connect_socket opened
      (record l { conn = record l.conn { thread_start = now; thread_next = now } })

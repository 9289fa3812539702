-- ===== src/Wrk/Receive.antt =====
-- The callbacks of the parser in wrk2/src/wrk.c: header_field, header_value, response_body and
-- response_complete.
use weaver_dsb.Prelude.{ℕ, ◌%◌, Bool, ◌&&◌, List, [], ◌∷◌, ◌++◌}
use weaver_dsb.Prelude.Tests.{ltb, leb, ◌==◌, if◌then◌else◌}
use weaver_dsb.Prelude.Lists.{get_or, set}
use weaver_dsb.Prelude.Int.{add64, sub64, as_int64}
use weaver_dsb.Prelude.Float.{Float}
use weaver_dsb.Prelude.Checked.{Checked, returned, assert, ◌>>=◌, ◌>>◌}
use weaver_dsb.Buffers.{Buffer, buffer_append, buffer_reset}
use weaver_dsb.Hdr.{Histogram}
use weaver_dsb.Hdr.Init.{hdr_reset}
use weaver_dsb.Hdr.Record.{hdr_record_value}
use weaver_dsb.Hdr.Query.{hdr_value_at_percentile}
use weaver_dsb.Wrk.{
  Config, Connection, Thread, field, value, Local, call, ae_stop, parser_init, script_response,
  print_latency, reconnect_socket, count32, outstanding_max,
}

-- `*c->headers.cursor++ = '\0'`: buffer_append has left room for it.
abbrev pub terminate : Buffer → Buffer
terminate b = record b { used = b.used ++ (0 ∷ []) }

-- the end of a value, where a field comes, and of a field, where a value comes
unfoldable pub enter_field : Connection → Connection
enter_field c = elim c.state [
  | field ↦ c
  | value ↦ record c { headers = terminate c.headers; state = field }
]

unfoldable pub enter_value : Connection → Connection
enter_value c = elim c.state [
  | field ↦ record c { headers = terminate c.headers; state = value }
  | value ↦ c
]

unfoldable pub header_field : List ℕ → Connection → Checked Connection
header_field text c = do
  let c' = enter_field c
  headers ← buffer_append c'.headers text
  returned (record c' { headers = headers })

unfoldable pub header_value : List ℕ → Connection → Checked Connection
header_value text c = do
  let c' = enter_value c
  headers ← buffer_append c'.headers text
  returned (record c' { headers = headers })

unfoldable pub response_body : List ℕ → Connection → Checked Connection
response_body text c = do body ← buffer_append c.body text; returned (record c { body = body })

-- A response as the parser gives it, the time, and whether a new connection could be opened.
pub record Response : Type 0 where
  pub now : ℕ
  pub status : ℕ
  pub keep_alive : Bool
  pub opened : Bool

-- the counters of the thread
unfoldable pub tally : ℕ → Thread → Thread
tally status t = record t {
  complete = add64 t.complete 1;
  requests = add64 t.requests 1;
  errors =
      if ltb 399 status then record t.errors { status = count32 t.errors.status } else t.errors;
}

-- The script gets the headers and the body; script_response resets both buffers.
unfoldable pub hand_over : ℕ → Local → Local
hand_over status l =
    if l.conn.headers.length == 0
    then l
    else call (script_response status) (record l {
      conn = record l.conn {
        headers = buffer_reset (terminate l.conn.headers);
        body = buffer_reset l.conn.body;
        state = field;
      };
    })

-- the line that is printed for the first thread at the end of an interval
unfoldable pub printed : Float → Config → Local → Checked Local
printed f cfg l =
    if cfg.print_realtime_latency && (l.thread.tid == 0)
    then (do
      latency ← hdr_value_at_percentile f l.thread.real_latency_histogram (f.of_ℕ 99)
      returned (call (print_latency latency) l))
    else returned l

-- the statements that follow it
abbrev pub restart : Thread → Thread
restart t = record t {
  monitored = 0;
  accum_latency = 0;
  real_latency_histogram = hdr_reset t.real_latency_histogram;
}

-- the end of an interval of `target` responses
unfoldable pub end_interval : Float → Config → Local → Checked Local
end_interval f cfg l =
    if l.thread.monitored == l.thread.target
    then (do l' ← printed f cfg l; returned (record l' { thread = restart l'.thread }))
    else returned l

-- `raw_latency[tid][complete] = timing` below MAXL
unfoldable pub keep_raw : Config → ℕ → Thread → Thread
keep_raw cfg timing t =
    if cfg.print_all_responses && ltb t.complete 1000000
    then record t { raw_latency = set t.raw_latency t.complete timing }
    else t

-- the start of the oldest request without a response
unfoldable pub started_at : Connection → ℕ
started_at c = get_or c.actual_latency_start (c.complete % outstanding_max) 0

-- a latency counted, with the histograms that hdr_record_value leaves
abbrev pub count_latency : Histogram → Histogram → ℕ → Thread → Thread
count_latency latency real timing t = record t {
  latency_histogram = latency;
  real_latency_histogram = real;
  monitored = add64 t.monitored 1;
  accum_latency = add64 t.accum_latency timing;
}

-- Recording a latency. The results of hdr_record_value are dropped.
unfoldable pub measure : Float → Config → ℕ → Local → Checked Local
measure f cfg now l = do
  assert (ltb (started_at l.conn) now)
  let timing = sub64 now (started_at l.conn)
  r ← hdr_record_value l.thread.latency_histogram (as_int64 timing)
  q ← hdr_record_value l.thread.real_latency_histogram (as_int64 timing)
  l' ← end_interval f cfg (record l { thread = count_latency r.0 q.0 timing l.thread })
  returned (record l' { thread = keep_raw cfg timing l'.thread })

-- the response counted for its connection
unfoldable pub conclude : Response → Local → Local
conclude r l =
    let l' = record l { conn = record l.conn { complete = add64 l.conn.complete 1 } } in
    if r.keep_alive then call parser_init l' else reconnect_socket r.opened l'

unfoldable pub response_complete : Float → Config → Response → Local → Checked Local
response_complete f cfg r l =
    let l' = hand_over r.status (record l { thread = tally r.status l.thread }) in
    if leb l'.thread.stop_at r.now then returned (call ae_stop l') else (do
      measured ← if cfg.record_all_responses then measure f cfg r.now l' else returned l'
      returned (conclude r measured))

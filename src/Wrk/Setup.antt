-- ===== src/Wrk/Setup.antt =====
-- The set-up of the threads and their connections, in main and thread_main of wrk2/src/wrk.c.
pub mod Laws
use weaver_dsb.Prelude.{
  ℕ, zero, suc, ◌+◌, ◌/◌, ◌*◌, ◌%◌, ◌^◌, Bool, true, false, Option, none, some, List, [], ◌∷◌, ◌++◌,
}
use weaver_dsb.Prelude.Tests.{if◌then◌else◌}
use weaver_dsb.Prelude.Lists.{replicate, length}
use weaver_dsb.Prelude.Text.{codes}
use weaver_dsb.Prelude.Int.{add64, mul64, pos_part}
use weaver_dsb.Prelude.Float.{Float}
use weaver_dsb.Buffers.{Buffer}
use weaver_dsb.Hdr.{Histogram}
use weaver_dsb.Hdr.Init.{InitResult, created, hdr_init}
use weaver_dsb.Wrk.{Connection, Thread, Errors, field, outstanding_max}
use weaver_dsb.Args.{Settings}
use weaver_dsb.Sockets.{Transport, plain, tls, starts_with}

-- `sock` after the test of the schema
abbrev pub transport_of : List ℕ → Transport
transport_of schema = if starts_with (codes "https") schema then tls else plain

-- the seconds and microseconds of gettimeofday
unfoldable time_us : ℕ → ℕ → ℕ
time_us seconds microseconds = add64 (mul64 seconds 1000000) microseconds

-- MAX_LATENCY
abbrev pub max_latency : ℕ
max_latency = 86400000000

-- CALIBRATE_DELAY_MS and TIMEOUT_INTERVAL_MS
abbrev pub calibrate_delay_ms : ℕ
calibrate_delay_ms = 10000

abbrev pub timeout_interval_ms : ℕ
timeout_interval_ms = 2000

-- what main computes for every thread: its connections, its throughput, and when it stops
pub record Share : Type 0 where
  pub connections : ℕ
  pub throughput : ℕ
  pub stop_at : ℕ

unfoldable pub share_of : Settings → ℕ → Share
share_of s now = record {
  connections = s.connections / s.threads;
  throughput = s.rate / s.threads;
  stop_at = add64 now (mul64 s.duration 1000000);
}

abbrev pub no_errors : Errors
no_errors = record { connect = 0; read = 0; write = 0; status = 0; timeout = 0 }

-- The thread of main's loop, which zcalloc has set to zero, with the histograms and the start of
-- thread_main; `raw` is its row of raw_latency.
unfoldable pub new_thread : Share → ℕ → Histogram → Histogram → ℕ → List ℕ → Thread
new_thread share i latency real_latency start raw = record {
  interval = 0;
  tid = i;
  stop_at = share.stop_at;
  complete = 0;
  requests = 0;
  monitored = 0;
  target = share.throughput / 10;
  accum_latency = 0;
  bytes = 0;
  start = start;
  mean = 0;
  latency_histogram = latency;
  real_latency_histogram = real_latency;
  errors = no_errors;
  raw_latency = raw;
}

-- `1000000 * connections / throughput`; the throughput of a thread is a double.
unfoldable pub interval_of : Float → Share → ℕ
interval_of f share =
    pos_part
      (f.truncate (f.over (f.of_ℕ (mul64 1000000 share.connections)) (f.of_ℕ share.throughput)))

-- a connection as the loop of thread_main leaves it, with the length of the request
unfoldable pub new_connection : ℕ → ℕ → Connection
new_connection interval request_length = record {
  state = field;
  interval = interval;
  sent = 0;
  estimate = 0;
  complete = 0;
  thread_start = 0;
  thread_next = 0;
  start = 0;
  length = request_length;
  written = 0;
  headers = record { length = 0; used = [] };
  body = record { length = 0; used = [] };
  actual_latency_start = replicate outstanding_max 0;
}

-- the time events that thread_main creates: the first connect of a connection, by its number, and
-- the two of the thread
pub data TimeEvent : Type 0 where
  first_connect : ℕ → TimeEvent
  calibration timeout_check : TimeEvent

-- the connects, one millisecond apart, of `count` connections from number `i` on
unfoldable pub connects : ℕ → ℕ → List (ℕ × TimeEvent)
connects zero i = []
connects (suc count) i = (i, first_connect i) ∷ connects count (i + 1)

-- what thread_main sets up before the event loop runs
pub record Started : Type 0 where
  pub thread : Thread
  pub cs : List Connection
  pub events : List (ℕ × TimeEvent)

-- The request is asked for in advance, where the script is static; otherwise its length is 0.
abbrev pub request_length : Bool → ℕ → ℕ
request_length dynamic length = if dynamic then 0 else length

abbrev pub started : Float → Share → ℕ → ℕ → Histogram → Histogram → ℕ → List ℕ → Started
started f share i length latency real_latency now raw = record {
  thread = new_thread share i latency real_latency now raw;
  cs = replicate share.connections (new_connection (interval_of f share) length);
  events =
      connects share.connections 0
      ++ ((calibrate_delay_ms + share.connections, calibration)
          ∷ (timeout_interval_ms + share.connections, timeout_check)
          ∷ []);
}

-- `none` is where a histogram could not be made: the code goes on with an unset pointer.
abbrev pub both_created :
    (Histogram → Histogram → Started) → InitResult → InitResult → Option Started
both_created go (created h) (created g) = some (go h g)
both_created go _ _ = none

unfoldable pub thread_main : Float → Share → ℕ → Bool → Bool → ℕ → ℕ → List ℕ → Option Started
thread_main f share i allocated dynamic length now raw =
    both_created
      (λ latency real_latency.
        started f share i (request_length dynamic length) latency real_latency now raw)
      (hdr_init 1 max_latency 3 allocated) (hdr_init 1 max_latency 3 allocated)

-- ===== src/Wrk/Main.antt =====
-- main of wrk2/src/wrk.c from the options to the threads, and from their end to the report.
use weaver_dsb.Prelude.{ℕ, zero, suc, Bool, true, ◌||◌, not, Option, none, some, List, [], ◌∷◌}
use weaver_dsb.Prelude.Tests.{ltb, if◌then◌else◌}
use weaver_dsb.Prelude.Int.{sub64}
use weaver_dsb.Prelude.Float.{Float}
use weaver_dsb.Prelude.Checked.{Checked, returned, ◌>>=◌}
use weaver_dsb.Hdr.{Histogram}
use weaver_dsb.Hdr.Init.{InitResult, created, hdr_init}
use weaver_dsb.Hdr.Query.{hdr_min, hdr_max}
use weaver_dsb.Stats.{Stats, stats_alloc}
use weaver_dsb.Url.{Parts, copy_url_part}
use weaver_dsb.Args.{Settings, Opt, parse_args}
use weaver_dsb.Sockets.{Transport, plain, tls}
use weaver_dsb.Wrk.{Thread, Errors}
use weaver_dsb.Wrk.Total.{Total, add_threads}
use weaver_dsb.Wrk.Setup.{max_latency, no_errors, transport_of}

-- Where main ends early, with its status, or what it goes on with.
pub data Begun : Type 0 where
  exited : ℕ → Begun
  begun : Settings → Transport → Begun

-- `port ? port : schema`, what the address is looked up by
abbrev pub service_of : Option (List ℕ) → Option (List ℕ) → List ℕ
service_of (some port) schema = port
service_of none (some schema) = schema
service_of none none = []

abbrev text_or_empty : Option (List ℕ) → List ℕ
text_or_empty none = []
text_or_empty (some text) = text

-- whether OpenSSL can be used, where it is needed
abbrev pub can_connect : Transport → Bool → Bool
can_connect plain ssl_ready = true
can_connect tls ssl_ready = ssl_ready

-- the end of the loop over the threads
abbrev pub create_threads : Bool → Settings → Transport → Begun
create_threads created_all s transport = if created_all then begun s transport else exited 2

-- The environment's answers: whether ssl_init gives a context, whether script_resolve finds an
-- address for the host and the service, and whether every thread can be created.
unfoldable pub begin :
    List Opt → List ℕ → Parts → Bool → Bool → (List ℕ → List ℕ → Bool) → Bool → Begun
begin os url parts parses ssl_ready resolves created_all =
    let schema = copy_url_part url parts.schema in
    let host = copy_url_part url parts.host in
    let service = service_of (copy_url_part url parts.port) schema in
    let transport = transport_of (text_or_empty schema) in
    elim (parse_args os true parses) [
      | none ↦ exited 1
      | some s ↦
          if not (can_connect transport ssl_ready)
          then exited 1
          else (if not (resolves (text_or_empty host) service)
              then exited 1
              else create_threads created_all s transport)
    ]

-- the variables of main before the sums
abbrev pub from_created : InitResult → InitResult → Option Total
from_created (created h) (created g) = some (record {
  complete = 0;
  bytes = 0;
  errors = no_errors;
  latency_histogram = h;
  real_latency_histogram = g;
})
from_created _ _ = none

unfoldable pub initial_total : Bool → Option Total
initial_total allocated =
    from_created (hdr_init 1 max_latency 3 allocated) (hdr_init 1 max_latency 3 allocated)

-- the lines of the file of a thread under -P: the latencies from the second on
abbrev pub responses_written : Bool → Thread → List ℕ
responses_written print_all t =
    if print_all then written_from 1 (smaller t.complete 1000000) t.raw_latency else []
  where
    smaller : ℕ → ℕ → ℕ
    smaller a b = if ltb a b then a else b

    written_from : ℕ → ℕ → List ℕ → List ℕ
    written_from first last [] = []
    written_from first zero (x ∷ xs) = []
    written_from zero (suc last) (x ∷ xs) = x ∷ written_from zero last xs
    written_from (suc first) (suc last) (x ∷ xs) = written_from first last xs

-- the rates, over the time that passed
pub record Rates (f : Float) : Type 0 where
  pub runtime_us : ℕ
  pub runtime_s : f.Double
  pub req_per_s : f.Double
  pub bytes_per_s : f.Double

unfoldable pub rates : (f : Float) → ℕ → ℕ → Total → Rates f
rates f start end total =
    let runtime_us = sub64 end start in
    let runtime_s = f.over (f.of_ℕ runtime_us) (f.literal 1000000 1) in
    record {
      runtime_us = runtime_us;
      runtime_s = runtime_s;
      req_per_s = f.over (f.of_ℕ total.complete) runtime_s;
      bytes_per_s = f.over (f.of_ℕ total.bytes) runtime_s;
    }

-- `latency_stats`
unfoldable pub latency_stats : Histogram → Checked Stats
latency_stats h = do
  least ← hdr_min h
  greatest ← hdr_max h
  returned (record (stats_alloc 10) { least = least; greatest = greatest; histogram = some h })

-- the two lines on errors: that on the sockets, and that on the status
unfoldable pub socket_errors : Errors → Option (ℕ × ℕ × ℕ × ℕ)
socket_errors e =
    if ltb 0 e.connect || ltb 0 e.read || ltb 0 e.write || ltb 0 e.timeout
    then some (e.connect, e.read, e.write, e.timeout)
    else none

unfoldable pub status_errors : Errors → Option ℕ
status_errors e = if ltb 0 e.status then some e.status else none

-- What main reports at the end.
pub record Report (f : Float) : Type 0 where
  pub total : Total
  pub achieved : Rates f
  pub latency : Stats
  pub on_sockets : Option (ℕ × ℕ × ℕ × ℕ)
  pub on_status : Option ℕ

unfoldable pub finish : (f : Float) → ℕ → ℕ → Total → List Thread → Checked (Report f)
finish f start end initial threads = do
  total ← add_threads initial threads
  latency ← latency_stats total.latency_histogram
  returned (record {
    total = total;
    achieved = rates f start end total;
    latency = latency;
    on_sockets = socket_errors total.errors;
    on_status = status_errors total.errors;
  })

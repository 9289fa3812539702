-- ===== src/Wrk/Total.antt =====
-- What main of wrk2/src/wrk.c adds up over the threads at the end of the run.
use weaver_dsb.Prelude.{ℕ, ◌+◌, ◌%◌, ◌^◌, List, [], ◌∷◌}
use weaver_dsb.Prelude.Int.{add64}
use weaver_dsb.Prelude.Checked.{Checked, returned, ◌>>=◌}
use weaver_dsb.Hdr.{Histogram}
use weaver_dsb.Hdr.Add.{hdr_add}
use weaver_dsb.Wrk.{Thread, Errors}

-- the variables of main
pub record Total : Type 0 where
  pub complete : ℕ
  pub bytes : ℕ
  pub errors : Errors
  pub latency_histogram : Histogram
  pub real_latency_histogram : Histogram

abbrev add32 : ℕ → ℕ → ℕ
add32 a b = (a + b) % 2 ^ 32

unfoldable pub add_errors : Errors → Errors → Errors
add_errors a b = record {
  connect = add32 a.connect b.connect;
  read = add32 a.read b.read;
  write = add32 a.write b.write;
  status = add32 a.status b.status;
  timeout = add32 a.timeout b.timeout;
}

-- one round; the results of hdr_add are dropped
unfoldable pub add_thread : Total → Thread → Checked Total
add_thread total t = do
  r ← hdr_add total.latency_histogram t.latency_histogram
  q ← hdr_add total.real_latency_histogram t.real_latency_histogram
  returned (record {
    complete = add64 total.complete t.complete;
    bytes = add64 total.bytes t.bytes;
    errors = add_errors total.errors t.errors;
    latency_histogram = r.0;
    real_latency_histogram = q.0;
  })

unfoldable pub add_threads : Total → List Thread → Checked Total
add_threads total [] = returned total
add_threads total (t ∷ ts) = add_thread total t >>= λ total'. add_threads total' ts

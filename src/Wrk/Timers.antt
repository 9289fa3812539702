-- ===== src/Wrk/Timers.antt =====
-- The time events of a thread in wrk2/src/wrk.c: check_timeouts, sample_rate and calibrate.
use weaver_dsb.Prelude.{ℕ, ◌/◌, Bool, true, false, ◌||◌, List, [], ◌∷◌}
use weaver_dsb.Prelude.Tests.{ltb, leb, if◌then◌else◌}
use weaver_dsb.Prelude.Int.{ℤ, pos, pos_part, sub64, mul64}
use weaver_dsb.Prelude.Float.{Float}
use weaver_dsb.Prelude.Checked.{Checked, returned, ◌>>=◌}
use weaver_dsb.Hdr.Init.{hdr_reset}
use weaver_dsb.Hdr.Query.{hdr_mean, hdr_value_at_percentile}
use weaver_dsb.Stats.{Stats, stats_record}
use weaver_dsb.Wrk.Pacing.{ae_nomore}
use weaver_dsb.Wrk.{Config, Connection, Thread, Errors, count32}

-- The loop of check_timeouts over the starts of the connections' requests.
unfoldable pub count_timeouts : ℕ → List Connection → Errors → Errors
count_timeouts max_age [] e = e
count_timeouts max_age (c ∷ cs) e =
    count_timeouts max_age cs
      (if ltb c.start max_age then record e { timeout = count32 e.timeout } else e)

-- The thread, whether the loop is stopped, and the delay to the next run.
unfoldable pub check_timeouts : Config → Bool → ℕ → List Connection → Thread → Thread × Bool × ℕ
check_timeouts cfg stop now cs t = (
  record t { errors = count_timeouts (sub64 now (mul64 cfg.timeout 1000)) cs t.errors },
  stop || leb t.stop_at now,
  2000,
)

-- The two readings of the clock are arguments; `statistics.requests` is the Stats.
unfoldable pub sample_rate : Float → ℕ → ℕ → Stats → Thread → Checked (Stats × Thread × ℕ)
sample_rate f now later s t = do
  let elapsed_ms = sub64 now t.start / 1000
  let requests =
      pos_part (f.truncate (f.times (f.over (f.of_ℕ t.requests) (f.of_ℕ elapsed_ms)) (f.of_ℕ 1000)))
  s' ← stats_record s requests
  returned (s', record t { requests = 0; start = later }, t.interval)

-- the interval of the samples: twice the latency in milliseconds, and at least 10
unfoldable pub sampling_interval : (f : Float) → ℕ → f.Double
sampling_interval f value =
    let doubled = f.times (f.over (f.of_ℕ value) (f.of_ℕ 1000)) (f.of_ℕ 2) in
    if f.less (f.of_ℕ 10) doubled then doubled else f.of_ℕ 10

-- what calibrate sets
abbrev pub calibrated : ℕ → ℕ → ℕ → Thread → Thread
calibrated mean interval now t = record t {
  mean = mean;
  latency_histogram = hdr_reset t.latency_histogram;
  start = now;
  interval = interval;
  requests = 0;
}

-- Whether the thread goes on to sample, and the delay.
unfoldable pub calibrate : Float → ℕ → Thread → Checked (Thread × Bool × ℤ)
calibrate f now t = do
  mean ← hdr_mean f t.latency_histogram
  value ← hdr_value_at_percentile f t.latency_histogram (f.of_ℕ 90)
  returned (
      if f.equal mean (f.of_ℕ 0) then (t, false, pos 10000) else (
        calibrated (pos_part (f.truncate mean)) (pos_part (f.truncate (sampling_interval f value)))
            now t,
        true,
        ae_nomore,
      ))

-- ===== src/Wrk/Latency.antt =====
-- response_complete of wrk2/src/wrk.c measures each response from the start of its own request.
use weaver_dsb.Prelude.{ℕ, ◌-◌, ◌^◌, ◌<◌, ◌≡◌, refl, sym, subst, ◌∙◌, arith, true, ◌&&◌, inl, inr}
use weaver_dsb.Prelude.Tests.{ltb, ◌==◌, Bool-cases}
use weaver_dsb.Prelude.Int.{pos, sub64, as_int64}
use weaver_dsb.Prelude.Float.{Float}
use weaver_dsb.Prelude.Checked.{returned}
use weaver_dsb.Hdr.{Histogram}
use weaver_dsb.Hdr.Layout.{capacity}
use weaver_dsb.Hdr.Index.{index_of}
use weaver_dsb.Hdr.Capacity.{capacity_iff}
use weaver_dsb.Hdr.Init.Laws.{IsValid, hdr_reset-IsValid}
use weaver_dsb.Hdr.Record.{hdr_record_value}
use weaver_dsb.Hdr.Record.Laws.{
  counted, counted-IsValid, hdr_record_values_lem, hdr_record_value-eq,
}
use weaver_dsb.Hdr.Query.Percentile.{hdr_value_at_percentile_lem}
use weaver_dsb.Wrk.{Config, Thread, Local, call, print_latency}
use weaver_dsb.Wrk.Receive.{
  restart, count_latency, printed, end_interval, keep_raw, started_at, measure,
}

-- The two agree on everything that counts for later responses.
record IsAlike (l l' : Local) : Type 0 where
  same_conn : l'.conn ≡ l.conn
  same_histogram : l'.thread.latency_histogram ≡ l.thread.latency_histogram
  same_complete : l'.thread.complete ≡ l.thread.complete
  valid_real : IsValid l'.thread.real_latency_histogram

module _ (f : Float) (cfg : Config) (l : Local) (v : IsValid l.thread.real_latency_histogram) where
  printed_lem : (l' : Local) × (printed f cfg l ≡ returned l') × IsAlike l l'
  unfolding printed
  printed_lem = elim (Bool-cases (cfg.print_realtime_latency && (l.thread.tid == 0))) [
    | inl yes_print ↦
        let (latency, e, ranked) = hdr_value_at_percentile_lem f v (f.of_ℕ 99) in
        (
          call (print_latency latency) l,
          rw (yes_print, e) refl,
          record { same_conn = refl; same_histogram = refl; same_complete = refl; valid_real = v },
        )
    | inr no_print ↦ (
      l,
      rw no_print refl,
      record { same_conn = refl; same_histogram = refl; same_complete = refl; valid_real = v },
    )
  ]

  end_interval_lem : (l' : Local) × (end_interval f cfg l ≡ returned l') × IsAlike l l'
  unfolding end_interval
  end_interval_lem = elim (Bool-cases (l.thread.monitored == l.thread.target)) [
    | inl ends ↦
        let (l', e, same) = printed_lem in
        (
          record l' { thread = restart l'.thread },
          rw (ends, e) refl,
          record {
            same_conn = same.same_conn;
            same_histogram = same.same_histogram;
            same_complete = same.same_complete;
            valid_real = (hdr_reset-IsValid same.valid_real).0;
          },
        )
    | inr goes_on ↦ (
      l,
      rw goes_on refl,
      record { same_conn = refl; same_histogram = refl; same_complete = refl; valid_real = v },
    )
  ]

recorded :
    {h : Histogram} (x : ℕ)
    → IsValid h
    → x < 2 ^ 63
    → x < capacity h
    → (hdr_record_value h (pos x) ≡ returned (counted h (index_of h x) 1, true))
      × IsValid (counted h (index_of h x) 1)
recorded {h} x v small lt = (
  hdr_record_value-eq v x small ∙ hdr_record_values_lem v x small 1 lt,
  counted-IsValid (index_of h x) 1 ((capacity_iff v.laid_out x small).0 lt) v,
)

-- the latency, as the code computes it
latency_lem :
    (now start : ℕ) → start < now → now < 2 ^ 63 → as_int64 (sub64 now start) ≡ pos (now - start)
latency_lem now start lt small = ground arith

-- What measure leaves: the latency counted, and the rest as before.
pub record IsMeasured (x : ℕ) (l l' : Local) : Type 0 where
  pub same_conn : l'.conn ≡ l.conn
  pub same_complete : l'.thread.complete ≡ l.thread.complete
  pub histogram :
      l'.thread.latency_histogram
      ≡ counted l.thread.latency_histogram (index_of l.thread.latency_histogram x) 1
  pub valid_real : IsValid l'.thread.real_latency_histogram

keep_raw_lem :
    (cfg : Config) (timing : ℕ) (t : Thread)
    → ((keep_raw cfg timing t).complete ≡ t.complete)
      × ((keep_raw cfg timing t).latency_histogram ≡ t.latency_histogram)
      × ((keep_raw cfg timing t).real_latency_histogram ≡ t.real_latency_histogram)
unfolding keep_raw
keep_raw_lem cfg timing t = elim (Bool-cases (cfg.print_all_responses && ltb t.complete 1000000)) [
  | inl kept ↦ rw kept (refl, refl, refl)
  | inr not_kept ↦ rw not_kept (refl, refl, refl)
]

pub measure_lem :
    (f : Float) (cfg : Config) (now : ℕ) (l : Local)
    → started_at l.conn < now
    → now < 2 ^ 63
    → IsValid l.thread.latency_histogram
    → IsValid l.thread.real_latency_histogram
    → now - started_at l.conn < capacity l.thread.latency_histogram
    → now - started_at l.conn < capacity l.thread.real_latency_histogram
    → (l' : Local) × (measure f cfg now l ≡ returned l') × IsMeasured (now - started_at l.conn) l l'
unfolding measure
measure_lem f cfg now l lt small v w cv cw =
    let test : ltb (started_at l.conn) now ≡ true = ground arith in
    let (ran, valid) = recorded (now - started_at l.conn) v (omega arith) cv in
    let (ran', valid') = recorded (now - started_at l.conn) w (omega arith) cw in
    let counts : Local = record l {
      thread =
          count_latency
            (counted l.thread.latency_histogram
              (index_of l.thread.latency_histogram (now - started_at l.conn)) 1)
            (counted l.thread.real_latency_histogram
              (index_of l.thread.real_latency_histogram (now - started_at l.conn)) 1)
            (sub64 now (started_at l.conn)) l.thread;
    } in
    let (l', ended, same) = end_interval_lem f cfg counts valid' in
    let kept = keep_raw_lem cfg (sub64 now (started_at l.conn)) l'.thread in
    (
      record l' { thread = keep_raw cfg (sub64 now (started_at l.conn)) l'.thread },
      rw (test, latency_lem now (started_at l.conn) lt small, ran, ran', ended) refl,
      record {
        same_conn = same.same_conn;
        same_complete = kept.0 ∙ same.same_complete;
        histogram = kept.1 ∙ same.same_histogram;
        valid_real = subst IsValid (sym kept.2) same.valid_real;
      },
    )

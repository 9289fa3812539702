-- ===== src/Wrk/Still.antt =====
-- response_complete of wrk2/src/wrk.c does not touch the schedule of its connection.
use weaver_dsb.Prelude.{ℕ, ◌≡◌, sym, ap, subst, ◌∙◌, inl, inr, ◌&&◌}
use weaver_dsb.Prelude.Tests.{ltb, leb, ◌==◌, if◌then◌else◌, Bool-cases}
use weaver_dsb.Prelude.Inversion.{returned_inj, bind_inv}
use weaver_dsb.Prelude.Int.{add64, sub64, as_int64}
use weaver_dsb.Prelude.Float.{Float}
use weaver_dsb.Prelude.Checked.{returned, assert}
use weaver_dsb.Hdr.Record.{hdr_record_value}
use weaver_dsb.Hdr.Query.{hdr_value_at_percentile}
use weaver_dsb.Wrk.{Config, Local, call, print_latency}
use weaver_dsb.Wrk.Receive.{
  Response, restart, count_latency, printed, end_interval, started_at, measure, conclude, tally,
  hand_over, response_complete,
}
use weaver_dsb.Wrk.Schedule.{IsOnSchedule, reconnect_socket-conn}

module _ (f : Float) (cfg : Config) where
  printed-conn : (l l' : Local) → printed f cfg l ≡ returned l' → l'.conn ≡ l.conn
  unfolding printed
  printed-conn l l' e = elim (Bool-cases (cfg.print_realtime_latency && (l.thread.tid == 0))) [
    | inl prints ↦
        let (latency, ran, left) =
          bind_inv (hdr_value_at_percentile f l.thread.real_latency_histogram (f.of_ℕ 99))
            (λ latency. returned (call (print_latency latency) l)) l' (rw prints at e) in
        ap (λ (x : Local). x.conn) (sym (returned_inj left))
    | inr silent ↦ ap (λ (x : Local). x.conn) (sym (returned_inj (rw silent at e)))
  ]

  end_interval-conn : (l l' : Local) → end_interval f cfg l ≡ returned l' → l'.conn ≡ l.conn
  unfolding end_interval
  end_interval-conn l l' e = elim (Bool-cases (l.thread.monitored == l.thread.target)) [
    | inl ends ↦
        let (m, ran, left) =
          bind_inv (printed f cfg l) (λ m. returned (record m { thread = restart m.thread })) l'
            (rw ends at e) in
        ap (λ (x : Local). x.conn) (sym (returned_inj left)) ∙ printed-conn l m ran
    | inr goes_on ↦ ap (λ (x : Local). x.conn) (sym (returned_inj (rw goes_on at e)))
  ]

  measure-conn : (now : ℕ) (l l' : Local) → measure f cfg now l ≡ returned l' → l'.conn ≡ l.conn
  unfolding measure
  measure-conn now l l' e =
      let (passed, ran, left) = bind_inv (assert (ltb (started_at l.conn) now)) _ l' e in
      let (r, ran', left') =
        bind_inv
          (hdr_record_value l.thread.latency_histogram (as_int64 (sub64 now (started_at l.conn)))) _
          l' left in
      let (q, ran'', left'') =
        bind_inv
          (hdr_record_value l.thread.real_latency_histogram
            (as_int64 (sub64 now (started_at l.conn))))
          _ l' left' in
      let (m, ended, left''') =
        bind_inv
          (end_interval f cfg
            (record l { thread = count_latency r.0 q.0 (sub64 now (started_at l.conn)) l.thread }))
          _ l' left'' in
      ap (λ (x : Local). x.conn) (sym (returned_inj left''')) ∙ end_interval-conn _ m ended

IsOnSchedule-hand_over :
    {o : ℕ × ℕ} {now : ℕ} (status : ℕ) (l : Local)
    → IsOnSchedule o now l.conn
    → IsOnSchedule o now (hand_over status l).conn
unfolding hand_over
IsOnSchedule-hand_over status l v = elim (Bool-cases (l.conn.headers.length == 0)) [
  | inl none_kept ↦ rw none_kept v
  | inr kept ↦ rw kept (record {
    ahead = v.ahead;
    near = v.near;
    planned = v.planned;
    due = v.due;
    gap = v.gap;
    gap_fits = v.gap_fits;
    origin = v.origin;
  })
]

IsOnSchedule-conclude :
    {o : ℕ × ℕ} {now : ℕ} (r : Response) (l : Local)
    → IsOnSchedule o now l.conn
    → IsOnSchedule o now (conclude r l).conn
unfolding conclude
IsOnSchedule-conclude {o} {now} r l v = elim (Bool-cases r.keep_alive) [
  | inl alive ↦ rw alive counts
  | inr closes ↦ rw (closes, reconnect_socket-conn) counts
]
  where
    counts : IsOnSchedule o now (record l.conn { complete = add64 l.conn.complete 1 })
    counts = record {
      ahead = v.ahead;
      near = v.near;
      planned = v.planned;
      due = v.due;
      gap = v.gap;
      gap_fits = v.gap_fits;
      origin = v.origin;
    }

module _ (f : Float) (cfg : Config) {o : ℕ × ℕ} {now : ℕ} (r : Response) where
  pub response_complete-IsOnSchedule :
      (l l' : Local)
      → IsOnSchedule o now l.conn
      → response_complete f cfg r l ≡ returned l'
      → IsOnSchedule o now l'.conn
  unfolding response_complete
  response_complete-IsOnSchedule l l' v e = elim (Bool-cases (leb handed.thread.stop_at r.now)) [
    | inl over ↦
        subst (λ (x : Local). IsOnSchedule o now x.conn) (returned_inj (rw over at e)) still
    | inr going ↦
        let (m, ran, left) =
          bind_inv
            (if cfg.record_all_responses then measure f cfg r.now handed else returned handed)
            (λ m. returned (conclude r m)) l' (rw going at e) in
        subst (λ (x : Local). IsOnSchedule o now x.conn) (returned_inj left)
          (IsOnSchedule-conclude r m (measured m ran))
  ]
    where
      handed : Local
      handed = hand_over r.status (record l { thread = tally r.status l.thread })

      still : IsOnSchedule o now handed.conn
      still = IsOnSchedule-hand_over r.status (record l { thread = tally r.status l.thread }) v

      measured :
          (m : Local)
          → (if cfg.record_all_responses then measure f cfg r.now handed else returned handed)
            ≡ returned m
          → IsOnSchedule o now m.conn
      measured m ran = elim (Bool-cases cfg.record_all_responses) [
        | inl all ↦
            subst (IsOnSchedule o now) (sym (measure-conn f cfg r.now handed m (simp all at ran)))
              still
        | inr batch ↦
            subst (λ (x : Local). IsOnSchedule o now x.conn) (returned_inj (simp batch at ran))
              still
      ]

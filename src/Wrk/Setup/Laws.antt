-- ===== src/Wrk/Setup/Laws.antt =====
-- What the options that parse_args accepts come to in main and thread_main of wrk2/src/wrk.c.
use native.Mathlib.Nat.{div-mul-le_self, le-div_iff_mul-le}
use weaver_dsb.Prelude.{
  ℕ, zero, suc, ◌+◌, ◌*◌, ◌/◌, ◌^◌, ◌≤◌, ◌<◌, ◌≡◌, refl, sym, ap, subst, ◌∙◌, Bool, true, some,
  List, [], ◌++◌, arith,
}
use weaver_dsb.Prelude.Lists.{length, get_or, replicate, length-replicate}
use weaver_dsb.Prelude.Float.{Float}
use weaver_dsb.Hdr.Init.{floor_log2, half_magnitude}
use weaver_dsb.Hdr.Init.Laws.{IsSupported, IsFresh, hdr_init-IsFresh}
use weaver_dsb.Bits.{bit_length}
use weaver_dsb.Wrk.{Config, Connection, Local, outstanding_max}
use weaver_dsb.Wrk.Pacing.{delayed_initial_connect}
use weaver_dsb.Wrk.Outstanding.{IsTracked}
use weaver_dsb.Wrk.Run.{Run, Run-schedule}
use weaver_dsb.Args.{Settings, Opt, parse_args}
use weaver_dsb.Args.Guards.{parse_args-IsRunnable}
use weaver_dsb.Wrk.Setup.{
  max_latency, share_of, new_connection, interval_of, TimeEvent, first_connect, calibration,
  connects, Started, started, request_length, thread_main, new_thread,
}

-- a day in microseconds, to three figures
pub day-IsSupported : IsSupported 1 max_latency 3
unfolding floor_log2 half_magnitude bit_length
day-IsSupported = record {
  figures_min = omega arith;
  figures_max = omega arith;
  positive = omega arith;
  mask_fits = omega arith;
  range_fits = omega arith;
}

-- A connection that has sent and planned nothing, with a gap between its requests.
pub record IsIdle (gap : ℕ) (c : Connection) : Type 0 where
  pub tracked : IsTracked [] c
  pub none_sent : c.sent ≡ 0
  pub none_planned : c.estimate ≡ 0
  pub none_written : c.written ≡ 0
  pub paced : c.interval ≡ gap

-- What a thread starts with.
pub record IsReady (s : Settings) (gap : ℕ) (st : Started) : Type 0 where
  pub some_connection : 1 ≤ length st.cs
  pub within : length st.cs * s.threads ≤ s.connections
  pub idle : (k : ℕ) (d : Connection) → k < length st.cs → IsIdle gap (get_or st.cs k d)
  pub staggered :
      (k : ℕ) → k < length st.cs → get_or st.events k (0, calibration) ≡ (k, first_connect k)
  pub latencies : IsFresh 1 max_latency 3 st.thread.latency_histogram
  pub real_latencies : IsFresh 1 max_latency 3 st.thread.real_latency_histogram

new_connection-IsIdle : (gap size : ℕ) → IsIdle gap (new_connection gap size)
unfolding new_connection
new_connection-IsIdle gap size = record {
  tracked = record {
    all_sent = refl;
    in_order = omega arith;
    window = omega arith;
    in_word = omega arith;
    room = length-replicate {A = ℕ} outstanding_max 0;
    waiting = λ i lo hi. absurd (omega arith);
  };
  none_sent = refl;
  none_planned = refl;
  none_written = refl;
  paced = refl;
}

get_or-replicate {ℓ} : {A : Type ℓ} (n k : ℕ) (a d : A) → k < n → get_or (replicate n a) k d ≡ a
get_or-replicate zero k a d lt = absurd (omega arith)
get_or-replicate (suc n) zero a d lt = refl
get_or-replicate (suc n) (suc k) a d lt = get_or-replicate n k a d (omega arith)

connects-at :
    (count i k : ℕ) (rest : List (ℕ × TimeEvent))
    → k < count
    → get_or (connects count i ++ rest) k (0, calibration) ≡ (i + k, first_connect (i + k))
unfolding connects
connects-at zero i k rest lt = absurd (omega arith)
connects-at (suc count) i zero rest lt = ap (λ (n : ℕ). (n, first_connect n)) (omega arith)
connects-at (suc count) i (suc k) rest lt =
    connects-at count (i + 1) k rest (omega arith)
    ∙ ap (λ (n : ℕ). (n, first_connect n)) (omega arith)

module _ (f : Float) (os : List Opt) (some_url parses : Bool) (s : Settings)
    (accepted : parse_args os some_url parses ≡ some s) where
  -- With options that parse_args accepts, and if there is memory for the histograms, thread_main
  -- sets up at least one connection, and over all threads no more than asked for; all of them
  -- idle, with one interval, each with room for the starts of its requests, and with their first
  -- connects a millisecond apart; and two empty histograms that cover a day to three figures.
  pub thread_main_lem :
      (now i size start : ℕ) (dynamic : Bool) (raw : List ℕ)
      → (st : Started) × (thread_main f (share_of s now) i true dynamic size start raw ≡ some st)
        × IsReady s (interval_of f (share_of s now)) st
  unfolding thread_main share_of new_thread
  thread_main_lem now i size start dynamic raw =
      let runnable = (parse_args-IsRunnable os some_url parses s accepted).0 in
      let (h, made, fresh) =
        hdr_init-IsFresh {lowest = 1} {highest = max_latency} {figures = 3} day-IsSupported in
      let n = s.connections / s.threads in
      let share = share_of s now in
      let new = new_connection (interval_of f share) (request_length dynamic size) in
      let many = length-replicate n new in
      (
        started f share i (request_length dynamic size) h h start raw,
        rw made refl,
        record {
          some_connection = omega (
            arith,
            many,
            (le-div_iff_mul-le {k = s.threads} {x = 1} {y = s.connections}
                  (omega (arith, runnable.some_thread))).1
                (omega (arith, runnable.enough_connections)),
          );
          within =
              subst (λ (m : ℕ). m * s.threads ≤ s.connections) (sym many)
                (div-mul-le_self s.connections s.threads);
          idle = λ k d lt.
              rw (get_or-replicate n k new d (omega (arith, lt, many)))
                (new_connection-IsIdle (interval_of f share) (request_length dynamic size));
          staggered = λ k lt.
              connects-at n 0 k _ (omega (arith, lt, many))
              ∙ ap (λ (m : ℕ). (m, first_connect m)) (omega arith);
          latencies = fresh;
          real_latencies = fresh;
        },
      )

  -- After any run of the handlers from its first connect, at a fixed rate, a connection of the
  -- thread has sent no request before its time.
  pub thread_main-schedule :
      (cfg : Config) (now i size start : ℕ) (dynamic : Bool) (raw : List ℕ) (st : Started) (k : ℕ)
      (d : Connection) (first : ℕ) (opened : Bool) (l' : Local) (time : ℕ)
      → IsReady s (interval_of f (share_of s now)) st
      → k < length st.cs
      → cfg.dist ≡ 0
      → 1 ≤ interval_of f (share_of s now)
      → interval_of f (share_of s now) < 2 ^ 62
      → time < 2 ^ 62
      → Run f cfg
          (
            delayed_initial_connect first opened
                (record { conn = get_or st.cs k d; thread = st.thread; calls = [] }),
            first,
          )
          (l', time)
      → l'.conn.thread_start + l'.conn.sent * l'.conn.interval ≤ time
  thread_main-schedule cfg now i size start dynamic raw st k d first opened l' time ready lt fixed
        one fits small run =
      let idle = ready.idle k d lt in
      (Run-schedule f cfg fixed opened
        (record { conn = get_or st.cs k d; thread = st.thread; calls = [] }) first l' time
        idle.none_sent idle.none_planned (omega (arith, idle.paced, one))
        (omega (arith, idle.paced, fits)) small run).0

-- ===== src/Tests/Connections.antt =====
-- The theorems about wrk2/src/wrk.c on one connection and one thread.
use weaver_dsb.Prelude.{
  ℕ, ◌+◌, ◌-◌, ◌*◌, ◌%◌, ◌^◌, ◌≤◌, ◌≡◌, refl, arith, [], ◌∷◌, ◌++◌, true, false,
}
use weaver_dsb.Prelude.Lists.{get_or, replicate, length-replicate}
use weaver_dsb.Prelude.Checked.{returned}
use weaver_dsb.Hdr.Init.Laws.{IsValid}
use weaver_dsb.Tests.Data.{pairs, pairs-IsValid, pairs-IsAlike, whole_numbers}
use weaver_dsb.Buffers.{Buffer}
use weaver_dsb.Wrk.{
  Config, Connection, Thread, Local, field, ok, outstanding_max, writable, create_file_event,
  delete_file_event, create_time_event,
}
use weaver_dsb.Wrk.Setup.{no_errors}
use weaver_dsb.Wrk.Schedule.{IsOnSchedule}
use weaver_dsb.Wrk.Pacing.{ae_nomore, delay_request, msec_to_wait, delayed_initial_connect}
use weaver_dsb.Wrk.Send.{Writing, begin_request, socket_writeable}
use weaver_dsb.Wrk.Progress.{next_request-sent}
use weaver_dsb.Wrk.Run.{Run, begun, then_step, writeable, Run-schedule}
use weaver_dsb.Wrk.Receive.{Response, response_complete}
use weaver_dsb.Wrk.Outstanding.{IsTracked, begin_request-IsTracked}
use weaver_dsb.Wrk.Responses.{IsMeasurable, IsAnswered, response_complete_lem}
use weaver_dsb.Wrk.Timers.{check_timeouts}
use weaver_dsb.Wrk.TimerLaws.{overdue, check_timeouts_lem}
use weaver_dsb.Wrk.Total.{Total, add_threads}
use weaver_dsb.Wrk.TotalLaws.{
  IsLike, none_left, one_more, counted_at, counted_in_all, completed, add_threads_lem,
}

abbrev pub fixed_rate : Config
fixed_rate = record {
  dist = 0;
  timeout = 2000;
  dynamic = false;
  record_all_responses = true;
  print_all_responses = false;
  print_realtime_latency = false;
}

abbrev pub empty : Buffer
empty = record { length = 0; used = [] }

-- a connection that has sent nothing, with a request each 1000 us
abbrev pub idle : Connection
idle = record {
  state = field;
  interval = 1000;
  sent = 0;
  estimate = 0;
  complete = 0;
  thread_start = 0;
  thread_next = 0;
  start = 0;
  length = 40;
  written = 0;
  headers = empty;
  body = empty;
  actual_latency_start = replicate outstanding_max 0;
}

abbrev one_thread : Thread
one_thread = record {
  interval = 10;
  tid = 0;
  stop_at = 9000000;
  complete = 4;
  requests = 4;
  monitored = 0;
  target = 100;
  accum_latency = 0;
  bytes = 0;
  start = 0;
  mean = 0;
  latency_histogram = pairs;
  real_latency_histogram = pairs;
  errors = no_errors;
  raw_latency = [];
}

abbrev before : Local
before = record { conn = idle; thread = one_thread; calls = [] }

-- the whole request is written at its time
abbrev writing : Writing
writing = record {
  now = 51000;
  drawn = record { gen_exp = 0; gen_zipf = 0 };
  request_length = 40;
  status = ok;
  n = 40;
  written_at = 51001;
  opened = true;
}

abbrev sent_one : Local
sent_one =
    socket_writeable whole_numbers fixed_rate writing (delayed_initial_connect 50000 true before)

one_step :
    Run whole_numbers fixed_rate
      (delayed_initial_connect 50000 true before, 50000)
      (sent_one, 51000)
one_step = then_step begun (writeable writing (omega arith))

Run-schedule_example :
    (sent_one.conn.thread_start + sent_one.conn.sent * sent_one.conn.interval ≤ 51000)
    × (sent_one.conn.sent ≤ sent_one.conn.estimate)
    × (sent_one.conn.estimate ≤ sent_one.conn.sent + 1)
Run-schedule_example =
    Run-schedule whole_numbers fixed_rate refl true before 50000 sent_one 51000 refl refl
      (omega arith) (omega arith) (omega arith) one_step

idle-IsTracked : IsTracked [] idle
idle-IsTracked = record {
  all_sent = refl;
  in_order = omega arith;
  window = omega arith;
  in_word = omega arith;
  room = length-replicate {A = ℕ} outstanding_max 0;
  waiting = λ i lo hi. absurd (omega arith);
}

begin_request-IsTracked_example : IsTracked (51001 ∷ []) (begin_request 51001 idle)
begin_request-IsTracked_example =
    begin_request-IsTracked 51001 {starts = []} {c = idle} idle-IsTracked refl (omega arith)
      (omega arith)

-- a connection that waits for the response to a request begun at 51001
abbrev waiting_one : Local
waiting_one = record before { conn = begin_request 51001 idle }

waiting-IsMeasurable : IsMeasurable (51001 ∷ []) 51006 waiting_one
unfolding begin_request
waiting-IsMeasurable = record {
  tracked =
      begin_request-IsTracked 51001 {starts = []} {c = idle} idle-IsTracked refl (omega arith)
        (omega arith);
  some_waiting = omega arith;
  before = omega arith;
  in_word = omega arith;
  valid = pairs-IsValid;
  valid_real = pairs-IsValid;
  covered = omega arith;
  covered_real = omega arith;
}

abbrev response : Response
response = record { now = 51006; status = 200; keep_alive = true; opened = true }

response_complete_lem_example :
    (l' : Local) × (response_complete whole_numbers fixed_rate response waiting_one ≡ returned l')
    × IsAnswered (51001 ∷ []) 51006 waiting_one l'
response_complete_lem_example =
    response_complete_lem whole_numbers fixed_rate response {starts = 51001 ∷ []} waiting_one refl
      (omega arith) waiting-IsMeasurable

check_timeouts_lem_example :
    (check_timeouts fixed_rate false 3000000 (idle ∷ []) one_thread).0.errors.timeout % 2 ^ 32
    ≡ (0 + overdue (3000000 - 2000 * 1000) (idle ∷ [])) % 2 ^ 32
check_timeouts_lem_example =
    check_timeouts_lem fixed_rate false 3000000 (idle ∷ []) one_thread (omega arith) (omega arith)

abbrev total : Total
total = record {
  complete = 0;
  bytes = 0;
  errors = no_errors;
  latency_histogram = pairs;
  real_latency_histogram = pairs;
}

pairs-IsLike : IsLike pairs pairs
pairs-IsLike = record { valid = pairs-IsValid; alike = pairs-IsAlike }

add_threads_lem_example :
    (r : Total) × (add_threads total (one_thread ∷ []) ≡ returned r)
    × IsValid r.latency_histogram
    × ((k : ℕ)
        → get_or r.latency_histogram.counts k 0
          ≡ get_or pairs.counts k 0 + counted_at k (one_thread ∷ []))
    × (r.latency_histogram.total_count ≡ 3 + counted_in_all (one_thread ∷ []))
    × (r.complete % 2 ^ 64 ≡ (0 + completed (one_thread ∷ [])) % 2 ^ 64)
add_threads_lem_example =
    add_threads_lem {g = pairs} (one_thread ∷ []) total pairs-IsLike pairs-IsLike
      (one_more pairs-IsLike pairs-IsLike none_left)

idle-IsOnSchedule : IsOnSchedule (0, 1000) 500 idle
idle-IsOnSchedule = record {
  ahead = omega arith;
  near = omega arith;
  planned = refl;
  due = omega arith;
  gap = omega arith;
  gap_fits = omega arith;
  origin = (refl, refl);
}

-- the socket can be written half a millisecond too early
abbrev early : Writing
early = record writing { now = 500 }

next_request-sent_example :
    ((socket_writeable whole_numbers fixed_rate early before).calls ≡ (
      ([] ++ (delete_file_event writable ∷ []))
      ++ (create_time_event (msec_to_wait whole_numbers 500) ∷ [])))
    × ((delay_request whole_numbers fixed_rate writing.drawn 1000
          (socket_writeable whole_numbers fixed_rate early before)).0.calls
        ≡ (socket_writeable whole_numbers fixed_rate early before).calls
          ++ (create_file_event writable ∷ []))
    × ((delay_request whole_numbers fixed_rate writing.drawn 1000
          (socket_writeable whole_numbers fixed_rate early before)).1
        ≡ ae_nomore)
    × ((socket_writeable whole_numbers fixed_rate writing
          (delay_request whole_numbers fixed_rate writing.drawn 1000
            (socket_writeable whole_numbers fixed_rate early before)).0).conn.sent
        ≡ 0 + 1)
next_request-sent_example =
    next_request-sent whole_numbers fixed_rate refl early writing writing.drawn 1000 before
      idle-IsOnSchedule refl (omega arith) (omega arith) (omega arith) (omega arith) refl

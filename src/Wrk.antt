-- ===== src/Wrk.antt =====
-- wrk2/src/wrk.c: the state of a connection and of its thread, and what the handlers ask of the
-- event loop.
pub mod Pacing
pub mod Send
pub mod Receive
pub mod Run
pub mod Latency
pub mod Concluded
pub mod Responses
pub mod Still
pub mod Read
pub mod Callbacks
pub mod Timers
pub mod Total
pub mod TimerLaws
pub mod TotalLaws
pub mod Outstanding
pub mod Schedule
pub mod Sends
pub mod Gaps
pub mod Setup
pub mod Due
pub mod Progress
pub mod Main
pub mod Probe
pub mod Printed
pub mod Pool
use weaver_dsb.Prelude.{ℕ, ◌+◌, ◌-◌, ◌%◌, ◌^◌, Bool, true, false, List, [], ◌∷◌, ◌++◌}
use weaver_dsb.Prelude.Tests.{if◌then◌else◌}
use weaver_dsb.Buffers.{Buffer}
use weaver_dsb.Hdr.{Histogram}

-- `errors`, each field a uint32_t
pub record Errors : Type 0 where
  pub connect : ℕ
  pub read : ℕ
  pub write : ℕ
  pub status : ℕ
  pub timeout : ℕ

-- the increment of a uint32_t
abbrev pub count32 : ℕ → ℕ
count32 n = (n + 1) % 2 ^ 32

-- `struct config`, as far as the handlers read it
pub record Config : Type 0 where
  pub dist : ℕ
  pub timeout : ℕ
  pub dynamic : Bool
  pub record_all_responses : Bool
  pub print_all_responses : Bool
  pub print_realtime_latency : Bool

-- where the parser is in a header
pub data HeaderState : Type 0 where
  field value : HeaderState

-- MAXO + 1
abbrev pub outstanding_max : ℕ
outstanding_max = 16384

-- `connection`: its parser, socket and request buffer are the environment's.
pub record Connection : Type 0 where
  pub state : HeaderState
  pub interval : ℕ
  pub sent : ℕ
  pub estimate : ℕ
  pub complete : ℕ
  pub thread_start : ℕ
  pub thread_next : ℕ
  pub start : ℕ
  pub length : ℕ
  pub written : ℕ
  pub headers : Buffer
  pub body : Buffer
  pub actual_latency_start : List ℕ

-- `thread`, with its row of the global array `raw_latency`
pub record Thread : Type 0 where
  pub interval : ℕ
  pub tid : ℕ
  pub stop_at : ℕ
  pub complete : ℕ
  pub requests : ℕ
  pub monitored : ℕ
  pub target : ℕ
  pub accum_latency : ℕ
  pub bytes : ℕ
  pub start : ℕ
  pub mean : ℕ
  pub latency_histogram : Histogram
  pub real_latency_histogram : Histogram
  pub errors : Errors
  pub raw_latency : List ℕ

-- `status` of net.h
pub data Status : Type 0 where
  ok error retry : Status

-- what a file event waits for
pub data Event : Type 0 where
  readable writable : Event

-- The calls that leave the program: of the event loop, the socket, the parser and the script.
-- The handler of a file event is socket_readable or socket_writeable; `create_connect_event` is
-- the call with socket_connected for both. A time event of a connection runs delay_request.
pub data Call : Type 0 where
  create_file_event : Event → Call
  create_connect_event : Call
  delete_file_event : Event → Call
  delete_file_events : Call
  create_time_event : ℕ → Call
  ae_stop sock_close close_fd script_request parser_init : Call
  script_response : ℕ → Call
  print_latency : ℕ → Call

-- what a handler works on: a connection, its thread, and the calls so far
pub record Local : Type 0 where
  pub conn : Connection
  pub thread : Thread
  pub calls : List Call

abbrev pub call : Call → Local → Local
call x l = record l { calls = l.calls ++ (x ∷ []) }

-- connect_socket; the first argument says whether the connection attempt and the registration of
-- its event succeed.
unfoldable pub connect_socket : Bool → Local → Local
connect_socket opened l =
    if opened
    then call create_connect_event l
    else call close_fd (record l {
      thread = record l.thread {
        errors = record l.thread.errors { connect = count32 l.thread.errors.connect };
      };
    })

unfoldable pub reconnect_socket : Bool → Local → Local
unfolding connect_socket
reconnect_socket opened l =
    connect_socket opened (call close_fd (call sock_close (call delete_file_events l)))

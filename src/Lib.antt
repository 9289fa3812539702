-- ===== src/Lib.antt =====
-- wrk2, the load generator of the repository (socialnetwork/wrk2/src): an HTTP client that sends
-- at a constant rate, measures the latency of each response from the time at which its request was
-- written, and gathers the latencies in histograms.
--
-- The parts and the files that model them:
--
--   Hdr (hdr_histogram.c, hdr_histogram.h)
--     Histogram is `struct hdr_histogram`. Hdr holds the index arithmetic (get_bucket_index,
--     counts_index, lowest_equivalent_value and the like), Hdr/Init hdr_init, hdr_alloc and
--     hdr_reset, Hdr/Record the three recording functions, Hdr/Iter `struct hdr_iter` with the
--     basic and the recorded iterator, Hdr/Query hdr_max, hdr_min, hdr_value_at_percentile,
--     hdr_mean and hdr_stddev, Hdr/Linear the linear and the logarithmic iterator, Hdr/Percentiles
--     the percentile iterator and hdr_percentiles_print, Hdr/Add hdr_add. Hdr/Layout says how the
--     fields hang together, Hdr/Index which counter a value has, Hdr/Capacity which values have
--     one, and Hdr/Equivalent how fine the counters are. Init/Laws, Record/Laws, Record/Corrected,
--     Add/Alike, Add/Laws, Iter/Values, Iter/Places, Iter/Loops, Iter/Recorded, Linear/Steps,
--     Percentiles/Steps, Percentiles/Print and the modules under Query prove what the operations
--     do.
--   Stats (stats.c, stats.h)
--     Stats is the struct `stats`: a ring of samples, or a histogram. Stats/Ring relates the ring
--     to the list of all values recorded, Stats/Newest its mean, Stats/Order is stats_compare,
--     Stats/Sampling rand64 and stats_sample, Stats/Summary the mean, the deviations and the
--     percentiles, with Stats/Within about the counts that stats_within_stdev reads.
--   Buffers (`buffer` of wrk.h, buffer_append and buffer_reset of script.c)
--   Wrk (wrk.c, wrk.h, net.h)
--     Connection and Thread are the structs; a handler takes a `Local`, which is a connection with
--     its thread and the calls made so far of the event loop, the socket, the parser and the
--     script. Wrk/Pacing says when a request is due (gen_next, usec_to_next_send, delay_request),
--     Wrk/Send is socket_connected and socket_writeable, Wrk/Receive the callbacks of the parser
--     with response_complete, Wrk/Read socket_readable, Wrk/Timers check_timeouts, sample_rate and
--     calibrate, Wrk/Total the sums of main. Wrk/Gaps draws the random gaps (gen_zipf, gen_exp).
--     Wrk/Setup is what main and thread_main do before the event loops run, Wrk/Probe what main
--     asks the first script, and Wrk/Main the way of main from the options to the threads and from
--     their end to the report, which Wrk/Printed prints. Wrk/Schedule, Wrk/Sends, Wrk/Still and
--     Wrk/Callbacks are about the schedule of a connection, which Wrk/Run follows through
--     sequences of handlers. Wrk/Outstanding is about the ring of start times, and Wrk/Latency,
--     Wrk/Concluded and Wrk/Responses about the measurement of a response. Wrk/TimerLaws and
--     Wrk/TotalLaws are about the time events and the sums. Wrk/Due and Wrk/Progress follow a connection that waits until it sends, and Wrk/Setup/Laws joins the
--     options, the set-up and the schedule. Wrk/Pool is a thread with all its connections, whose
--     handlers and time events run in any order, and Wrk/Pool/Rate bounds what they send. The
--     histograms are those of Hdr, one pair for each thread; `statistics.requests` is a Stats.
--   Script (script.c)
--     Lua is the API as an interface: operations on the state of an interpreter, and their laws in
--     IsLawful. Script holds set_fields, Script/Calls the set-up and the calls of a script,
--     Script/Responses script_response, Script/Report the end of a run, Script/Verify
--     script_verify_request, Script/Transfer the copies between interpreters, Script/Statistics
--     and Script/Threads what a script sees of the statistics, the threads and the addresses.
--     Script/Stack says what each call leaves on the stack, Script/Fields what set_fields stores,
--     Script/Balance which functions leave the stack as it was, Script/Addresses and Script/Lookup
--     who owns the blocks of the addresses; Script/Pieces follows the headers from the parser, by
--     Wrk/Receive, into the buffer, and Script/RoundTrip from there to the script.
--   Url (script.c, wrk.c)
--     script_parse_url, push_url_part and copy_url_part over the parts that the parser finds.
--   Sockets (net.c, ssl.c)
--     The statuses that Wrk/Send and Wrk/Read take, from what the system and OpenSSL answer.
--   Format (units.c, aprintf.c, wrk.c)
--     format_units, aprintf and print_units; Format/Laws says how the unit is chosen.
--   Units (units.c)
--     scan_units with the tables of scan_metric and scan_time; Units/Laws says what it returns.
--   Args (parse_args of wrk.c)
--     The options that getopt_long gives are an argument. Args/Guards is about what is accepted.
--   Prelude
--     The names shared by all modules, lists read as C arrays, C's integers (Int), results that
--     may fail an assertion or run out of fuel (Checked), and floating point as an interface
--     (Float).
--   Bits
--     Powers of two and the width of a word, for `__builtin_clzll`.
--   Tests
--     The functions on small inputs, and the theorems applied to them.
--
-- How the code is translated. A function on a struct takes the record and returns the one it
-- leaves, beside the code's result. A failed `assert` is the result `aborted`. A loop is recursion
-- on fuel where the code's own condition ends it, with `out_of_fuel` as a result that the theorems
-- exclude: `rounds h`, one more than the number of counters, is enough for every loop over an
-- iterator, the value plus one for the loop of hdr_record_corrected_value, 64 for the bucket loop
-- of hdr_init, the bytes needed for buffer_append, the bytes of the headers for script_response,
-- and the entries of a flat table and two for script_copy_value. The rows of hdr_percentiles_print
-- depend on the arithmetic, by a measure that the theorem takes. The loop of rand64 ends only if
-- the generator gives a small enough output, and that of socket_readable only if the socket runs
-- dry: both take what they meet as an argument. An int64_t argument that may be negative is an
-- integer; where the code only passes the values of the histogram's own entries, it is a natural
-- number. The counters are natural numbers, so that the overflow of a counter after 2^63
-- recordings is not modelled. A uint64_t wraps at 2^64, and so do the sum of hdr_mean and the ticks
-- of the percentile iterator, which are read back as an int64_t. The width of a counter is `1 << n`
-- of an int, undefined in C from 31 on: it is 0 there, and the theorems stay below, at the values
-- that have a counter.
--
-- What is not modelled. The text that printf makes of a number, the event loop (ae.c) and the
-- allocator (zmalloc.c), the parser of HTTP (http_parser.c), the random generator (tinymt64.c) and
-- LuaJIT are copies of other projects. `malloc` is an argument of hdr_init, qsort of
-- stats_summarize, the outputs of the generator of rand64. The clock, the results of the calls of
-- read and write, the callbacks of the parser and what a script answers are arguments of the
-- handlers. The gaps that gen_exp and gen_zipf draw are arguments of the handlers too, and the
-- outputs of rand are those of the two functions. What the Lua API raises in lua_call is left out:
-- the calls of a script return. Floating point is an interface without laws: a theorem about a
-- function that uses it holds whatever the arithmetic.
pub mod Prelude
pub mod Bits
pub mod Hdr
pub mod Stats
pub mod Buffers
pub mod Wrk
pub mod Units
pub mod Args
pub mod Script
pub mod Url
pub mod Sockets
pub mod Format
pub mod Tests

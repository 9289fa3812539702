-- ===== src/Tests/Pools.antt =====
-- The theorem about a thread of wrk2/src/wrk.c with all its connections, on a run of one step.
use weaver_dsb.Prelude.{◌+◌, ◌-◌, ◌*◌, ◌^◌, ◌≤◌, ◌≡◌, refl, some, [], ◌∷◌, arith, true, false}
use weaver_dsb.Prelude.Lists.{length}
use weaver_dsb.Hdr.{Histogram}
use weaver_dsb.Hdr.Init.Laws.{hdr_init-IsFresh}
use weaver_dsb.Args.{opt_L, opt_R}
use weaver_dsb.Tests.Data.{whole_numbers}
use weaver_dsb.Tests.Connections.{fixed_rate}
use weaver_dsb.Tests.Inputs.{thousand, accepted, accepted_run}
use weaver_dsb.Wrk.Pacing.{delayed_initial_connect}
use weaver_dsb.Wrk.Setup.{
  Started, started, thread_main, share_of, interval_of, new_connection, max_latency,
}
use weaver_dsb.Wrk.Setup.Laws.{day-IsSupported}
use weaver_dsb.Wrk.Pool.{
  Slot, Pool, local_of, stored, first_connects, Turns, none_yet, then_turn, pool_of, sent_in_all,
}
use weaver_dsb.Wrk.Pool.Rate.{Turns-rate}

abbrev day : Histogram
day = (hdr_init-IsFresh {lowest = 1} {highest = max_latency} {figures = 3} day-IsSupported).0

abbrev set_up : Started
set_up = started whole_numbers (share_of accepted 7) 0 40 day day 9 []

set_up_run : thread_main whole_numbers (share_of accepted 7) 0 true false 40 9 [] ≡ some set_up
unfolding thread_main
set_up_run =
    let made =
      (hdr_init-IsFresh {lowest = 1} {highest = max_latency} {figures = 3} day-IsSupported).1 in
    rw made refl

abbrev unconnected_slot : Slot
unconnected_slot = record {
  connection = new_connection (interval_of whole_numbers (share_of accepted 7)) 40;
  connected = false;
}

-- the first connection connects three microseconds after the start
abbrev after_one : Pool
after_one =
    stored (pool_of set_up 9) 0
      (delayed_initial_connect 12 true (local_of (pool_of set_up 9) unconnected_slot)) 12

one_turn : Turns whole_numbers fixed_rate (pool_of set_up 9) after_one
unfolding share_of
one_turn = then_turn none_yet (
    first_connects {p = pool_of set_up 9} 0 unconnected_slot true 12 (omega arith) refl refl
      (omega arith))

interval_bounds :
    (1 ≤ interval_of whole_numbers (share_of accepted 7))
    × (interval_of whole_numbers (share_of accepted 7) + 1 ≤ 2 ^ 62)
unfolding interval_of share_of
interval_bounds = (omega arith, omega arith)

Turns-rate_example :
    sent_in_all after_one.slots * interval_of whole_numbers (share_of accepted 7)
    ≤ length set_up.cs * (12 - 9)
Turns-rate_example =
    Turns-rate whole_numbers (opt_L ∷ opt_R thousand ∷ []) true true accepted accepted_run 7 0 40 9
      false [] set_up set_up_run fixed_rate refl interval_bounds.0
      (omega (arith, interval_bounds.1)) after_one one_turn (omega arith)

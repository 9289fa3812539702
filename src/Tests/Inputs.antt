-- ===== src/Tests/Inputs.antt =====
-- The theorems about wrk2/src/units.c and the options of wrk2/src/wrk.c on small inputs.
use weaver_dsb.Prelude.{ℕ, ◌≡◌, refl, true, false, some, List, [], ◌∷◌}
use weaver_dsb.Units.{scan, scan_units, from_scanned, find_unit, same_unit, time_units_s}
use weaver_dsb.Units.Laws.{scanned_as, scan_units_lem}
use weaver_dsb.Args.{Settings, opt_L, opt_R, set_options, set_option, accept, parse_args, defaults}
use weaver_dsb.Wrk.Setup.{Started, thread_main, share_of, interval_of}
use weaver_dsb.Wrk.Setup.Laws.{IsReady, thread_main_lem}
use weaver_dsb.Prelude.Text.{codes}
use weaver_dsb.Tests.Data.{whole_numbers}
use weaver_dsb.Format.{time_units_us, limit_of, scaled_units}
use weaver_dsb.Format.Laws.{IsScaled, scaled_units_lem}
use weaver_dsb.Args.Guards.{IsRunnable, parse_args-IsRunnable}

-- "2m"
abbrev two_minutes : List ℕ
two_minutes = 50 ∷ 109 ∷ []

scan_units-two_minutes : scan_units two_minutes time_units_s ≡ some 120
unfolding scan_units from_scanned scan find_unit same_unit
scan_units-two_minutes = refl

scan_units_lem_example :
    scan_units two_minutes time_units_s ≡ scanned_as time_units_s (scan two_minutes)
scan_units_lem_example = scan_units_lem two_minutes time_units_s

-- "1k"
abbrev pub thousand : List ℕ
thousand = 49 ∷ 107 ∷ []

abbrev pub accepted : Settings
accepted = record defaults { latency = true; rate = 1000 }

pub accepted_run : parse_args (opt_L ∷ opt_R thousand ∷ []) true true ≡ some accepted
unfolding parse_args set_options set_option accept scan_units from_scanned scan find_unit same_unit
accepted_run = refl

parse_args-IsRunnable_example : IsRunnable accepted × (true ≡ true) × (true ≡ true)
parse_args-IsRunnable_example =
    parse_args-IsRunnable (opt_L ∷ opt_R thousand ∷ []) true true accepted accepted_run

thread_main_lem_example :
    (st : Started) × (thread_main whole_numbers (share_of accepted 7) 0 true false 40 9 []
      ≡ some st)
    × IsReady accepted (interval_of whole_numbers (share_of accepted 7)) st
thread_main_lem_example =
    thread_main_lem whole_numbers (opt_L ∷ opt_R thousand ∷ []) true true accepted accepted_run 7 0
      40 9 false []

-- 5000 us
scaled_units_lem_example :
    IsScaled whole_numbers 1000
      (limit_of whole_numbers time_units_us)
      5000
      (codes "us")
      (codes "ms" ∷ codes "s" ∷ [])
      (scaled_units whole_numbers 5000 time_units_us)
scaled_units_lem_example =
    scaled_units_lem whole_numbers 5000 1000 (codes "us") (codes "ms") (codes "s" ∷ [])

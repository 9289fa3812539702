-- ===== src/Args.antt =====
-- parse_args of wrk2/src/wrk.c. getopt_long is the environment's: the options that it gives, in
-- order, are an argument, and so are whether a URL follows and whether it parses.
pub mod Guards
use weaver_dsb.Prelude.{
  ℕ, ◌+◌, ◌*◌, ◌%◌, ◌^◌, Bool, true, false, ◌||◌, not, Option, none, some, List, [], ◌∷◌, ◌++◌,
}
use weaver_dsb.Prelude.Tests.{ltb, ◌==◌, if◌then◌else◌}
use weaver_dsb.Prelude.Int.{mul64}
use weaver_dsb.Units.{scan_metric, scan_time}

-- `struct config`, with the headers that are collected
pub record Settings : Type 0 where
  pub threads : ℕ
  pub connections : ℕ
  pub dist : ℕ
  pub duration : ℕ
  pub timeout : ℕ
  pub rate : ℕ
  pub latency : Bool
  pub record_all_responses : Bool
  pub print_all_responses : Bool
  pub print_realtime_latency : Bool
  pub script : Option (List ℕ)
  pub headers : List (List ℕ)

-- the word after `-D`: one of the four names, or another
pub data Dist : Type 0 where
  fixed exp norm zipf other_dist : Dist

-- An option, with its argument; `unknown` is `h`, `?`, `:` or any other character.
pub data Opt : Type 0 where
  opt_t opt_c opt_d opt_s opt_H opt_T opt_R : List ℕ → Opt
  opt_D : Dist → Opt
  opt_P opt_p opt_L opt_B opt_v unknown : Opt

abbrev pub defaults : Settings
defaults = record {
  threads = 2;
  connections = 10;
  dist = 0;
  duration = 10;
  timeout = 2000;
  rate = 0;
  latency = false;
  record_all_responses = true;
  print_all_responses = false;
  print_realtime_latency = false;
  script = none;
  headers = [];
}

set_dist : Dist → Settings → Settings
set_dist fixed s = record s { dist = 0 }
set_dist exp s = record s { dist = 1 }
set_dist norm s = record s { dist = 2 }
set_dist zipf s = record s { dist = 3 }
set_dist other_dist s = s

abbrev with_number : (ℕ → Settings) → Option ℕ → Option Settings
with_number f none = none
with_number f (some n) = some (f n)

-- one round of the switch; `none` is the result -1
unfoldable pub set_option : Opt → Settings → Option Settings
unfolding set_dist
set_option (opt_t arg) s = with_number (λ n. record s { threads = n }) (scan_metric arg)
set_option (opt_c arg) s = with_number (λ n. record s { connections = n }) (scan_metric arg)
set_option (opt_d arg) s = with_number (λ n. record s { duration = n }) (scan_time arg)
set_option (opt_s arg) s = some (record s { script = some arg })
set_option (opt_H arg) s = some (record s { headers = s.headers ++ (arg ∷ []) })
set_option (opt_T arg) s = with_number (λ n. record s { timeout = mul64 n 1000 }) (scan_time arg)
set_option (opt_R arg) s = with_number (λ n. record s { rate = n }) (scan_metric arg)
set_option (opt_D d) s = some (set_dist d s)
set_option opt_P s = some (record s { print_all_responses = true })
set_option opt_p s = some (record s { print_realtime_latency = true })
set_option opt_L s = some (record s { latency = true })
set_option opt_B s = some (record s { record_all_responses = false })
set_option opt_v s = some s
set_option unknown s = none

abbrev pub and_then : (Settings → Option Settings) → Option Settings → Option Settings
and_then f none = none
and_then f (some s) = f s

unfoldable pub set_options : List Opt → Settings → Option Settings
set_options [] s = some s
set_options (o ∷ os) s = and_then (λ s'. set_options os s') (set_option o s)

-- the tests after the loop, in the order of the code
unfoldable pub accept : Bool → Bool → Settings → Option Settings
accept some_url parses s =
    if not some_url || (s.threads == 0) || (s.duration == 0)
    then none
    else (if not parses
        then none
        else (if (s.connections == 0) || ltb s.connections s.threads
            then none
            else (if s.rate == 0 then none else some s)))

unfoldable pub parse_args : List Opt → Bool → Bool → Option Settings
parse_args os some_url parses = and_then (accept some_url parses) (set_options os defaults)

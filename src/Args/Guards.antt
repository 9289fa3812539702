-- ===== src/Args/Guards.antt =====
-- What parse_args of wrk2/src/wrk.c makes sure of.
use weaver_dsb.Prelude.{
  ◌≤◌, ◌≡◌, refl, subst, Bool, true, false, ◌||◌, not, Option, none, some, List, arith,
}
use weaver_dsb.Prelude.Tests.{ltb, ◌==◌, if◌then◌else◌}
use weaver_dsb.Args.{Settings, Opt, defaults, and_then, set_options, accept, parse_args}

-- the settings that main can run with
pub record IsRunnable (s : Settings) : Type 0 where
  pub some_thread : 1 ≤ s.threads
  pub enough_connections : s.threads ≤ s.connections
  pub some_time : 1 ≤ s.duration
  pub some_rate : 1 ≤ s.rate

-- each test of `accept` passes where it accepts
accept-passes :
    (some_url parses : Bool) (s s' : Settings)
    → accept some_url parses s ≡ some s'
    → ((not some_url || (s.threads == 0) || (s.duration == 0)) ≡ false)
      × (not parses ≡ false)
      × (((s.connections == 0) || ltb s.connections s.threads) ≡ false)
      × ((s.rate == 0) ≡ false)
      × (s ≡ s')
unfolding accept
accept-passes some_url parses s s' e =
    test (not some_url || (s.threads == 0) || (s.duration == 0)) (not parses)
      ((s.connections == 0) || ltb s.connections s.threads) (s.rate == 0) e
  where
    test :
        (a b c d : Bool)
        → (if a
            then none
            else (if b then none else (if c then none else (if d then none else some s))))
          ≡ some s'
        → (a ≡ false) × (b ≡ false) × (c ≡ false) × (d ≡ false) × (s ≡ s')
    test true b c d h = absurd (cc h)
    test false true c d h = absurd (cc h)
    test false false true d h = absurd (cc h)
    test false false false true h = absurd (cc h)
    test false false false false h = (refl, refl, refl, refl, cc h)

true_of_not : (b : Bool) → not b ≡ false → b ≡ true
true_of_not true e = refl
true_of_not false e = absurd (cc e)

true_of_url : (b x y : Bool) → (not b || x || y) ≡ false → b ≡ true
true_of_url true x y e = refl
true_of_url false x y e = absurd (cc e)

accept-IsRunnable :
    (some_url parses : Bool) (s s' : Settings)
    → accept some_url parses s ≡ some s'
    → IsRunnable s' × (some_url ≡ true) × (parses ≡ true)
accept-IsRunnable some_url parses s s' e =
    let (a, b, c, d, same) = accept-passes some_url parses s s' e in
    (
      subst IsRunnable same (record {
        some_thread = ground (arith, a);
        enough_connections = ground (arith, c);
        some_time = ground (arith, a);
        some_rate = ground (arith, d);
      }),
      true_of_url some_url (s.threads == 0) (s.duration == 0) a,
      true_of_not parses b,
    )

and_then-some :
    (f : Settings → Option Settings) (o : Option Settings) (s : Settings)
    → and_then f o ≡ some s
    → (m : Settings) × (f m ≡ some s)
and_then-some f none s e = absurd (cc e)
and_then-some f (some m) s e = (m, e)

-- Whatever the options, parse_args succeeds only with at least one thread, as many connections as
-- threads, a duration and a rate that are not zero, and a URL that parses.
pub parse_args-IsRunnable :
    (os : List Opt) (some_url parses : Bool) (s : Settings)
    → parse_args os some_url parses ≡ some s
    → IsRunnable s × (some_url ≡ true) × (parses ≡ true)
unfolding parse_args
parse_args-IsRunnable os some_url parses s e =
    let (m, ran) = and_then-some (accept some_url parses) (set_options os defaults) s e in
    accept-IsRunnable some_url parses m s ran

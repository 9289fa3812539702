-- ===== src/Wrk/TimerLaws.antt =====
-- check_timeouts of wrk2/src/wrk.c counts the connections whose last start is too old.
use weaver_dsb.Prelude.{
  ℕ, ◌+◌, ◌-◌, ◌*◌, ◌%◌, ◌^◌, ◌≤◌, ◌<◌, ◌≡◌, ◌∙◌, arith, List, [], ◌∷◌, Bool, inl, inr,
}
use weaver_dsb.Prelude.Tests.{ltb, if◌then◌else◌, Bool-cases}
use weaver_dsb.Prelude.Int.{sub64, mul64}
use weaver_dsb.Wrk.{Config, Connection, Thread, Errors, count32}
use weaver_dsb.Wrk.Timers.{count_timeouts, check_timeouts}

-- how many connections have a start before `limit`
abbrev pub overdue : ℕ → List Connection → ℕ
overdue limit [] = 0
overdue limit (c ∷ cs) = (if ltb c.start limit then 1 else 0) + overdue limit cs

one_more : (c : Connection) (limit : ℕ) (e : Errors) → Errors
one_more c limit e = if ltb c.start limit then record e { timeout = count32 e.timeout } else e

one_more_lem :
    (c : Connection) (limit : ℕ) (e : Errors)
    → (one_more c limit e).timeout % 2 ^ 32
      ≡ (e.timeout + (if ltb c.start limit then 1 else 0)) % 2 ^ 32
unfolding one_more
one_more_lem c limit e = elim (Bool-cases (ltb c.start limit)) [
  | inl old ↦ rw old (omega arith)
  | inr young ↦ rw young (omega arith)
]

count_timeouts_lem :
    (limit : ℕ) (cs : List Connection) (e : Errors)
    → (count_timeouts limit cs e).timeout % 2 ^ 32 ≡ (e.timeout + overdue limit cs) % 2 ^ 32
unfolding count_timeouts one_more
count_timeouts_lem limit [] e = omega arith
count_timeouts_lem limit (c ∷ cs) e =
    count_timeouts_lem limit cs (one_more c limit e) ∙ omega (arith, one_more_lem c limit e)

-- Where the clock is past the timeout, and below 2^64, check_timeouts adds to the timeouts, modulo
-- 2^32, the number of connections whose last start is more than the timeout, in milliseconds, ago.
pub check_timeouts_lem :
    (cfg : Config) (stop : Bool) (now : ℕ) (cs : List Connection) (t : Thread)
    → cfg.timeout * 1000 ≤ now
    → now < 2 ^ 64
    → (check_timeouts cfg stop now cs t).0.errors.timeout % 2 ^ 32
      ≡ (t.errors.timeout + overdue (now - cfg.timeout * 1000) cs) % 2 ^ 32
unfolding check_timeouts
check_timeouts_lem cfg stop now cs t past small =
    let limit : sub64 now (mul64 cfg.timeout 1000) ≡ now - cfg.timeout * 1000 =
      omega (arith, past, small) in
    rw limit (count_timeouts_lem (now - cfg.timeout * 1000) cs t.errors)

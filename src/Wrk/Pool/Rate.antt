-- ===== src/Wrk/Pool/Rate.antt =====
-- The connections of a thread of wrk2/src/wrk.c together send no more than their rate allows.
use weaver_dsb.Prelude.{
  ℕ, zero, suc, ◌+◌, ◌-◌, ◌*◌, ◌^◌, ◌≤◌, ◌<◌, ◌≡◌, refl, sym, ap, subst, ◌∙◌, Bool, true, false,
  some, List, [], ◌∷◌, arith,
}
use weaver_dsb.Prelude.Lists.{length, get_or, set, length-set}
use weaver_dsb.Prelude.Float.{Float}
use weaver_dsb.Wrk.{Config, Connection, Local}
use weaver_dsb.Wrk.Pacing.{delayed_initial_connect}
use weaver_dsb.Wrk.Run.{Step, Step-time, Step-IsOnSchedule, initial}
use weaver_dsb.Wrk.Schedule.{IsOnSchedule, later}
use weaver_dsb.Wrk.Setup.{Started, thread_main, share_of, interval_of}
use weaver_dsb.Wrk.Setup.Laws.{IsIdle, IsReady, thread_main_lem}
use weaver_dsb.Args.{Settings, Opt, parse_args}
use weaver_dsb.Wrk.Pool.{
  Slot, Pool, local_of, Turn, first_connects, handles, checks_timeouts, samples, calibrates, Turns,
  none_yet, then_turn, new_slots, pool_of, sent_in_all,
}

-- Before its first connect a connection has sent nothing and has the thread's interval; afterwards
-- it is on a schedule of that interval, from a start not before `first`.
pub data IsPaced (first gap now : ℕ) (s : Slot) : Type 0 where
  unconnected :
      s.connected ≡ false
      → s.connection.sent ≡ 0
      → s.connection.estimate ≡ 0
      → s.connection.interval ≡ gap
      → IsPaced first gap now s
  scheduled :
      (start : ℕ)
      → first ≤ start
      → s.connected ≡ true
      → IsOnSchedule (start, gap) now s.connection
      → IsPaced first gap now s

abbrev pub AllPaced : ℕ → ℕ → ℕ → List Slot → Type 0
AllPaced first gap now [] = Unit {0}
AllPaced first gap now (s ∷ ss) = IsPaced first gap now s × AllPaced first gap now ss

module _ (first gap : ℕ) where
  IsPaced-later : {now t : ℕ} (s : Slot) → now ≤ t → IsPaced first gap now s → IsPaced first gap t s
  IsPaced-later s le (unconnected c e g i) = unconnected c e g i
  IsPaced-later s le (scheduled start from c v) = scheduled start from c (later le v)

  AllPaced-later :
      {now t : ℕ} (ss : List Slot) → now ≤ t → AllPaced first gap now ss → AllPaced first gap t ss
  AllPaced-later [] le v = tt
  AllPaced-later (s ∷ ss) le (v, vs) = (IsPaced-later s le v, AllPaced-later ss le vs)

  AllPaced-at :
      {now : ℕ} (ss : List Slot) (k : ℕ) (d : Slot)
      → k < length ss
      → AllPaced first gap now ss
      → IsPaced first gap now (get_or ss k d)
  AllPaced-at [] k d lt v = absurd (omega arith)
  AllPaced-at (s ∷ ss) zero d lt (v, vs) = v
  AllPaced-at (s ∷ ss) (suc k) d lt (v, vs) = AllPaced-at ss k d (omega arith) vs

  AllPaced-set :
      {now : ℕ} (ss : List Slot) (k : ℕ) (s' : Slot)
      → IsPaced first gap now s'
      → AllPaced first gap now ss
      → AllPaced first gap now (set ss k s')
  AllPaced-set [] k s' w v = tt
  AllPaced-set (s ∷ ss) zero s' w (v, vs) = (w, vs)
  AllPaced-set (s ∷ ss) (suc k) s' w (v, vs) = (v, AllPaced-set ss k s' w vs)

  -- what each has sent, and all
  IsPaced-sent :
      {now : ℕ} (s : Slot)
      → first ≤ now
      → IsPaced first gap now s
      → s.connection.sent * gap + first ≤ now
  IsPaced-sent s le (unconnected c e g i) = omega (arith, le, ap (λ (k : ℕ). k * gap) e)
  IsPaced-sent s le (scheduled start from c v) =
      omega (arith, from, v.due, v.origin.0, ap (λ (k : ℕ). s.connection.sent * k) v.origin.1)

  sent_in_all-le :
      {now : ℕ} (ss : List Slot)
      → first ≤ now
      → AllPaced first gap now ss
      → sent_in_all ss * gap ≤ length ss * (now - first)
  unfolding sent_in_all
  sent_in_all-le [] le v = omega arith
  sent_in_all-le {now} (s ∷ ss) le (v, vs) =
      omega (arith, IsPaced-sent s le v, sent_in_all-le ss le vs, le)

  module _ (f : Float) (cfg : Config) (fixed : cfg.dist ≡ 0) (one : 1 ≤ gap)
      (fits : gap < 2 ^ 62) where
    -- the first connect of a connection starts its schedule
    first_connect-IsPaced :
        (t : ℕ) (opened : Bool) (p : Pool) (s : Slot)
        → first ≤ t
        → s.connected ≡ false
        → IsPaced first gap p.now s
        → IsPaced first gap t (record {
          connection = (delayed_initial_connect t opened (local_of p s)).conn;
          connected = true;
        })
    first_connect-IsPaced t opened p s le off (unconnected c e g i) = scheduled t le refl (
        subst
          (λ (k : ℕ). IsOnSchedule (t, k) t (delayed_initial_connect t opened (local_of p s)).conn)
          i
          (initial f cfg fixed opened (local_of p s) t e g (omega (arith, i, one))
            (omega (arith, i, fits))))
    first_connect-IsPaced t opened p s le off (scheduled start from on v) = absurd (cc (off, on))

    handled-IsPaced :
        (p : Pool) (s : Slot) (l : Local) (t : ℕ)
        → t < 2 ^ 62
        → s.connected ≡ true
        → Step f cfg (local_of p s, p.now) (l, t)
        → IsPaced first gap p.now s
        → IsPaced first gap t (record { connection = l.conn; connected = true })
    handled-IsPaced p s l t small on step (unconnected off e g i) = absurd (cc (off, on))
    handled-IsPaced p s l t small on step (scheduled start from c v) =
        scheduled start from refl (Step-IsOnSchedule f cfg fixed step small v)

    Turn-time : {p q : Pool} → Turn f cfg p q → (p.now ≤ q.now) × (length q.slots ≡ length p.slots)
    Turn-time (first_connects {p} k s opened t lt is off le) = (le, length-set p.slots k _)
    Turn-time (handles {p} k s l t lt is on step) = (Step-time f cfg step, length-set p.slots k _)
    Turn-time (checks_timeouts stop cs t le) = (le, refl)
    Turn-time (samples t end s s' thread' delay le e) = (le, refl)
    Turn-time (calibrates t thread' sampling delay le e) = (le, refl)

    Turn-AllPaced :
        {p q : Pool}
        → Turn f cfg p q
        → first ≤ p.now
        → q.now < 2 ^ 62
        → AllPaced first gap p.now p.slots
        → AllPaced first gap q.now q.slots
    Turn-AllPaced (first_connects {p} k s opened t lt is off le) from small v =
        AllPaced-set p.slots k _
          (first_connect-IsPaced t opened p s (omega (arith, from, le)) off
            (subst (IsPaced first gap p.now) is (AllPaced-at p.slots k s lt v)))
          (AllPaced-later p.slots le v)
    Turn-AllPaced (handles {p} k s l t lt is on step) from small v =
        AllPaced-set p.slots k _
          (handled-IsPaced p s l t small on step
            (subst (IsPaced first gap p.now) is (AllPaced-at p.slots k s lt v)))
          (AllPaced-later p.slots (Step-time f cfg step) v)
    Turn-AllPaced (checks_timeouts {p} stop cs t le) from small v = AllPaced-later p.slots le v
    Turn-AllPaced (samples {p} t end s s' thread' delay le e) from small v =
        AllPaced-later p.slots le v
    Turn-AllPaced (calibrates {p} t thread' sampling delay le e) from small v =
        AllPaced-later p.slots le v

    Turns-AllPaced :
        {p q : Pool}
        → Turns f cfg p q
        → first ≤ p.now
        → q.now < 2 ^ 62
        → AllPaced first gap p.now p.slots
        → AllPaced first gap q.now q.slots × (first ≤ q.now) × (length q.slots ≡ length p.slots)
    Turns-AllPaced none_yet from small v = (v, from, refl)
    Turns-AllPaced (then_turn turns turn) from small v =
        let (forward, same) = Turn-time turn in
        let (w, between, all) = Turns-AllPaced turns from (omega (arith, forward, small)) v in
        (Turn-AllPaced turn between small w, omega (arith, between, forward), same ∙ all)

-- connections that are idle, none of them connected
idle-AllPaced :
    (gap now : ℕ) (cs : List Connection)
    → ((k : ℕ) (d : Connection) → k < length cs → IsIdle gap (get_or cs k d))
    → AllPaced now gap now (new_slots cs)
idle-AllPaced gap now [] idle = tt
idle-AllPaced gap now (c ∷ cs) idle =
    let i = idle 0 c (omega arith) in
    (
      unconnected refl i.none_sent i.none_planned i.paced,
      idle-AllPaced gap now cs (λ k d lt. idle (suc k) d (omega (arith, lt))),
    )

length-new_slots : (cs : List Connection) → length (new_slots cs) ≡ length cs
length-new_slots [] = refl
length-new_slots (c ∷ cs) = ap suc (length-new_slots cs)

some_inj {ℓ} : {A : Type ℓ} {a b : A} → some a ≡ some b → a ≡ b
some_inj e = cc e

-- With options that parse_args accepts, at a fixed rate with an interval from 1 below 2^62, from
-- the set-up of thread_main and up to any time below 2^62: after any interleaving of the handlers
-- of all connections of the thread and of its time events, with a clock that does not go back, the
-- requests sent over all connections, times the interval, are at most the time that has passed,
-- for each connection.
pub Turns-rate :
    (f : Float) (os : List Opt) (some_url parses : Bool) (s : Settings)
    → parse_args os some_url parses ≡ some s
    → (now i size start : ℕ) (dynamic : Bool) (raw : List ℕ) (st : Started)
    → thread_main f (share_of s now) i true dynamic size start raw ≡ some st
    → (cfg : Config) → cfg.dist ≡ 0
    → 1 ≤ interval_of f (share_of s now)
    → interval_of f (share_of s now) < 2 ^ 62
    → (q : Pool) → Turns f cfg (pool_of st start) q
    → q.now < 2 ^ 62
    → sent_in_all q.slots * interval_of f (share_of s now) ≤ length st.cs * (q.now - start)
Turns-rate f os some_url parses s accepted now i size start dynamic raw st ran cfg fixed one fits q
      turns small =
    let gap = interval_of f (share_of s now) in
    let (st', ran', ready') =
      thread_main_lem f os some_url parses s accepted now i size start dynamic raw in
    let ready : IsReady s gap st = subst (IsReady s gap) (some_inj (sym ran' ∙ ran)) ready' in
    let (v, from, same) =
      Turns-AllPaced start gap f cfg fixed one fits turns (omega arith) small
        (idle-AllPaced gap start st.cs ready.idle) in
    subst (λ (n : ℕ). sent_in_all q.slots * gap ≤ n * (q.now - start))
      (same ∙ length-new_slots st.cs) (sent_in_all-le start gap q.slots from v)

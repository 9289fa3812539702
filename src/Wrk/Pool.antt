-- ===== src/Wrk/Pool.antt =====
-- A thread of wrk2/src/wrk.c with all its connections: its event loop runs their handlers and its
-- time events in any order.
pub mod Rate
use weaver_dsb.Prelude.{
  ℕ, zero, suc, ◌+◌, ◌*◌, ◌^◌, ◌≤◌, ◌<◌, ◌≡◌, ◌≢◌, refl, sym, ap, subst, ◌∙◌, Bool, true, false,
  List, [], ◌∷◌, arith, ℕ_discrete,
}
use weaver_dsb.Prelude.Int.{ℤ}
use weaver_dsb.Prelude.Lists.{length, get_or, set, length-set, get_or-set_self, get_or-set_ne}
use weaver_dsb.Prelude.Float.{Float}
use weaver_dsb.Prelude.Checked.{returned}
use weaver_dsb.Stats.{Stats}
use weaver_dsb.Wrk.{Config, Connection, Thread, Local}
use weaver_dsb.Wrk.Pacing.{delayed_initial_connect}
use weaver_dsb.Wrk.Timers.{check_timeouts, sample_rate, calibrate}
use weaver_dsb.Wrk.Setup.{Started}
use weaver_dsb.Wrk.Run.{Step}

-- A connection with whether its first connect has run.
pub record Slot : Type 0 where
  pub connection : Connection
  pub connected : Bool

-- the thread, its connections, and the clock
pub record Pool : Type 0 where
  pub thread : Thread
  pub slots : List Slot
  pub now : ℕ

-- what a handler of one connection works on, and what it leaves
abbrev pub local_of : Pool → Slot → Local
local_of p s = record { conn = s.connection; thread = p.thread; calls = [] }

abbrev pub stored : Pool → ℕ → Local → ℕ → Pool
stored p k l t = record {
  thread = l.thread;
  slots = set p.slots k (record { connection = l.conn; connected = true });
  now = t;
}

-- One run of a handler. A connection's own handlers run only after its first connect, which
-- registers them, and which runs once.
pub data Turn (f : Float) (cfg : Config) : Pool → Pool → Type 0 where
  first_connects :
      {p : Pool} (k : ℕ) (s : Slot) (opened : Bool) (t : ℕ)
      → k < length p.slots
      → get_or p.slots k s ≡ s
      → s.connected ≡ false
      → p.now ≤ t
      → Turn f cfg p (stored p k (delayed_initial_connect t opened (local_of p s)) t)
  handles :
      {p : Pool} (k : ℕ) (s : Slot) (l : Local) (t : ℕ)
      → k < length p.slots
      → get_or p.slots k s ≡ s
      → s.connected ≡ true
      → Step f cfg (local_of p s, p.now) (l, t)
      → Turn f cfg p (stored p k l t)
  checks_timeouts :
      {p : Pool} (stop : Bool) (cs : List Connection) (t : ℕ)
      → p.now ≤ t
      → Turn f cfg p (record p { thread = (check_timeouts cfg stop t cs p.thread).0; now = t })
  samples :
      {p : Pool} (t end : ℕ) (s s' : Stats) (thread' : Thread) (delay : ℕ)
      → p.now ≤ t
      → sample_rate f t end s p.thread ≡ returned (s', thread', delay)
      → Turn f cfg p (record p { thread = thread'; now = t })
  calibrates :
      {p : Pool} (t : ℕ) (thread' : Thread) (sampling : Bool) (delay : ℤ)
      → p.now ≤ t
      → calibrate f t p.thread ≡ returned (thread', sampling, delay)
      → Turn f cfg p (record p { thread = thread'; now = t })

pub data Turns (f : Float) (cfg : Config) : Pool → Pool → Type 0 where
  none_yet : {p : Pool} → Turns f cfg p p
  then_turn : {p q r : Pool} → Turns f cfg p q → Turn f cfg q r → Turns f cfg p r

-- The pool that thread_main starts with, its clock at a time.
abbrev pub new_slots : List Connection → List Slot
new_slots [] = []
new_slots (c ∷ cs) = record { connection = c; connected = false } ∷ new_slots cs

abbrev pub pool_of : Started → ℕ → Pool
pool_of st now = record { thread = st.thread; slots = new_slots st.cs; now = now }

-- the requests sent over all connections
unfoldable pub sent_in_all : List Slot → ℕ
sent_in_all [] = 0
sent_in_all (s ∷ ss) = s.connection.sent + sent_in_all ss

-- ===== src/Script/Threads.antt =====
-- The addresses and the threads as a script sees them, in wrk2/src/script.c: script_addr_copy,
-- script_addr_clone, script_addr_gc, script_thread_index, script_thread_newindex,
-- script_thread_stop, script_wrk_lookup and script_wrk_connect.
use weaver_dsb.Prelude.{ℕ, ◌+◌, Bool, false, Option, none, some, List, [], ◌∷◌, ◌++◌}
use weaver_dsb.Prelude.Tests.{◌==◌, if◌then◌else◌}
use weaver_dsb.Prelude.Text.{codes, same_text}
use weaver_dsb.Prelude.Int.{negsuc}
use weaver_dsb.Prelude.Checked.{Checked, returned, aborted, ◌>>=◌}
use weaver_dsb.Script.{
  boolean, string, other, Lua, script_thread_get, script_thread_set, script_thread_stop,
}

-- The blocks that zmalloc or getaddrinfo gave and that are not yet given back, each with its
-- bytes, and the next one to give.
pub record Blocks : Type 0 where
  pub fresh : ℕ
  pub live : List (ℕ × List ℕ)

abbrev pub bytes_at : ℕ → List (ℕ × List ℕ) → Option (List ℕ)
bytes_at p [] = none
bytes_at p ((q, bytes) ∷ bs) = let rest = bytes_at p bs in if q == p then some bytes else rest

abbrev pub without : ℕ → List (ℕ × List ℕ) → List (ℕ × List ℕ)
without p [] = []
without p ((q, bytes) ∷ bs) = let rest = without p bs in if q == p then rest else (q, bytes) ∷ rest

-- zfree of a block that is not live is undefined.
abbrev pub free_live : ℕ → Option (List ℕ) → Blocks → Checked Blocks
free_live p none m = aborted
free_live p (some bytes) m = returned (record m { live = without p m.live })

abbrev pub zfree : ℕ → Blocks → Checked Blocks
zfree p m = free_live p (bytes_at p m.live) m

-- `struct addrinfo`: its family, type and protocol, and the block of its address
pub record Address : Type 0 where
  pub family : ℕ
  pub kind : ℕ
  pub protocol : ℕ
  pub ai_addr : ℕ

abbrev pub copy_bytes : Address → Option (List ℕ) → Blocks → Checked (Address × Blocks)
copy_bytes src none m = aborted
copy_bytes src (some bytes) m = returned (
  record src { ai_addr = m.fresh },
  record { fresh = m.fresh + 1; live = (m.fresh, bytes) ∷ m.live },
)

-- the copy, in a block of its own
unfoldable pub script_addr_copy : Address → Blocks → Checked (Address × Blocks)
script_addr_copy src m = copy_bytes src (bytes_at src.ai_addr m.live) m

unfoldable pub script_addr_gc : Address → Blocks → Checked Blocks
script_addr_gc a m = zfree a.ai_addr m

-- `t->addr`, NULL at first: the old block is freed, and then the address is copied.
unfoldable pub set_address : Option Address → Address → Blocks → Checked (Option Address × Blocks)
set_address none a m = do copied ← script_addr_copy a m; returned (some copied.0, copied.1)
set_address (some old) a m = do
  m' ← zfree old.ai_addr m
  copied ← script_addr_copy a m'
  returned (some copied.0, copied.1)

-- the assignment of a script to a field of a thread; luaL_error does not come back
unfoldable pub script_thread_newindex :
    List ℕ → Address → Option Address → Blocks → Checked (Option Address × Blocks)
script_thread_newindex key a addr m =
    if same_text (codes "addr") key then set_address addr a m else aborted

-- freeaddrinfo
unfoldable pub free_addresses : List Address → Blocks → Checked Blocks
free_addresses [] m = returned m
free_addresses (a ∷ rest) m = zfree a.ai_addr m >>= free_addresses rest

module _ (L : Lua) (userdata : Address → L.Other) where
  unfoldable pub script_addr_clone : Address → L.State × Blocks → Checked (L.State × Blocks)
  script_addr_clone a (s, m) = do
    copied ← script_addr_copy a m
    returned (L.push (other (userdata copied.0)) s, copied.1)

  abbrev pub clone_address : Option Address → L.State × Blocks → Checked (L.State × Blocks)
  clone_address none w = aborted
  clone_address (some a) w = script_addr_clone a w

  -- The host and the service are what getnameinfo gives; after a failure luaL_error does not come
  -- back.
  unfoldable script_addr_tostring : Option (List ℕ × List ℕ) → L.State → Checked L.State
  script_addr_tostring none s = aborted
  script_addr_tostring (some (host, service)) s =
      returned (L.push (string (host ++ (58 ∷ []) ++ service)) s)

  -- For another key nothing is pushed.
  unfoldable script_thread_index :
      List ℕ → Option Address → L.State × Blocks → Checked (L.State × Blocks)
  script_thread_index key addr (s, m) =
      if same_text (codes "get") key
      then returned (L.push (other (L.c_function script_thread_get)) s, m)
      else (if same_text (codes "set") key
          then returned (L.push (other (L.c_function script_thread_set)) s, m)
          else (if same_text (codes "stop") key
              then returned (L.push (other (L.c_function script_thread_stop)) s, m)
              else (if same_text (codes "addr") key
                  then clone_address addr (s, m)
                  else returned (s, m))))

  -- the loop over what getaddrinfo found, from an index on
  unfoldable pub put_addresses : ℕ → List Address → L.State × Blocks → Checked (L.State × Blocks)
  put_addresses index [] w = returned w
  put_addresses index (a ∷ rest) w = do
    cloned ← script_addr_clone a w
    put_addresses (index + 1) rest (L.raw_seti (negsuc 1) index cloned.0, cloned.1)

  -- The addresses are what getaddrinfo finds; `none` is where it fails, and the process exits.
  unfoldable pub script_wrk_lookup :
      Option (List Address) → L.State × Blocks → Checked (L.State × Blocks)
  script_wrk_lookup none w = aborted
  script_wrk_lookup (some addresses) (s, m) = do
    filled ← put_addresses 1 addresses (L.new_table s, m)
    m' ← free_addresses addresses filled.1
    returned (filled.0, m')

  -- whether socket gives a descriptor, and whether connect then succeeds
  unfoldable script_wrk_connect : Bool → Bool → L.State → L.State
  script_wrk_connect opened connects s = L.push (boolean (if opened then connects else false)) s

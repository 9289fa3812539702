-- ===== src/Buffers.antt =====
-- `buffer` of wrk2/src/wrk.h, with buffer_append and buffer_reset of wrk2/src/script.c.
pub mod Room
use weaver_dsb.Prelude.{ℕ, zero, suc, ◌+◌, List, [], ◌∷◌, ◌++◌}
use weaver_dsb.Prelude.Tests.{leb, if◌then◌else◌}
use weaver_dsb.Prelude.Lists.{length}
use weaver_dsb.Prelude.Checked.{Checked, returned, out_of_fuel, ◌>>=◌}

-- the length allocated, 0 while the pointer is NULL, and the bytes before the cursor
pub record Buffer : Type 0 where
  pub length : ℕ
  pub used : List ℕ

-- The loop of buffer_append, on fuel: 1024 bytes more until `needed` is below the length.
pub grow_loop : ℕ → ℕ → ℕ → Checked ℕ
grow_loop zero needed allocated = out_of_fuel
grow_loop (suc fuel) needed allocated =
    let rest = grow_loop fuel needed (allocated + 1024) in
    if leb allocated needed then rest else returned allocated

-- realloc and memcpy are the environment's, and do not fail.
pub buffer_append : Buffer → List ℕ → Checked Buffer
buffer_append b text = do
  allocated ←
      grow_loop (suc (length b.used + length text + 1)) (length b.used + length text + 1) b.length
  returned (record { length = allocated; used = b.used ++ text })

pub buffer_reset : Buffer → Buffer
buffer_reset b = record b { used = [] }

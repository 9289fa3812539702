-- ===== src/Buffers/Room.antt =====
-- buffer_append keeps what is there, and makes room for a terminating byte.
use weaver_dsb.Prelude.{
  ℕ, zero, suc, ◌+◌, ◌*◌, ◌≤◌, ◌<◌, ◌≡◌, refl, max, List, ◌++◌, arith, true, false, dec_le,
}
use weaver_dsb.Prelude.Tests.{leb}
use weaver_dsb.Prelude.Lists.{length, length-append}
use weaver_dsb.Prelude.Checked.{returned}
use weaver_dsb.Buffers.{Buffer, grow_loop, buffer_append}

grow_loop_stops :
    (fuel needed allocated : ℕ)
    → needed < allocated
    → grow_loop (suc fuel) needed allocated ≡ returned allocated
unfolding grow_loop
grow_loop_stops fuel needed allocated h =
    let test : leb allocated needed ≡ false = ground arith in rw test refl

grow_loop_lem :
    (fuel needed allocated : ℕ)
    → needed < allocated + 1024 * fuel
    → (a : ℕ) × (grow_loop (suc fuel) needed allocated ≡ returned a)
      × (needed < a)
      × (allocated ≤ a)
      × (a ≤ max allocated (needed + 1024))
unfolding grow_loop
grow_loop_lem zero needed allocated h = (
  allocated,
  grow_loop_stops 0 needed allocated (omega arith),
  omega arith,
  omega arith,
  omega arith,
)
grow_loop_lem (suc fuel) needed allocated h = elim (dec_le allocated needed) [
  | yes small ↦
      let (a, e, above, more, bound) = grow_loop_lem fuel needed (allocated + 1024) (omega arith) in
      let test : leb allocated needed ≡ true = ground arith in
      (a, rw test e, above, omega arith, omega arith)
  | no large ↦ (
    allocated,
    grow_loop_stops (suc fuel) needed allocated (omega arith),
    omega arith,
    omega arith,
    omega arith,
  )
]

-- buffer_append returns. The bytes used are those before with the new ones behind them; the
-- length leaves room for them and for one byte more, and it grows past that by at most 1024.
pub buffer_append_lem :
    (b : Buffer) (text : List ℕ)
    → (b' : Buffer) × (buffer_append b text ≡ returned b')
      × (b'.used ≡ b.used ++ text)
      × (length b'.used + 1 < b'.length)
      × (b'.length ≤ max b.length (length b'.used + 1 + 1024))
unfolding buffer_append
buffer_append_lem b text =
    let (a, e, above, more, bound) =
      grow_loop_lem (length b.used + length text + 1) (length b.used + length text + 1) b.length
        (omega arith) in
    (
      record { length = a; used = b.used ++ text },
      rw e refl,
      refl,
      omega (arith, length-append b.used text),
      omega (arith, length-append b.used text),
    )

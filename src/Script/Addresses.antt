-- ===== src/Script/Addresses.antt =====
-- Who owns the block of an address in wrk2/src/script.c: what an assignment to the address of a
-- thread does to the blocks.
use weaver_dsb.Prelude.{
  ℕ, ◌+◌, ◌<◌, ◌≡◌, ◌≢◌, refl, sym, ◌∙◌, true, false, inl, inr, none, some, List, [], ◌∷◌, arith,
}
use weaver_dsb.Prelude.Tests.{◌==◌, Bool-cases}
use weaver_dsb.Prelude.Checked.{returned}
use weaver_dsb.Script.Threads.{Blocks, bytes_at, without, Address, script_addr_copy, set_address}

pub bytes_at-without_self : (p : ℕ) (bs : List (ℕ × List ℕ)) → bytes_at p (without p bs) ≡ none
bytes_at-without_self p [] = refl
bytes_at-without_self p ((q, bytes) ∷ bs) = elim (Bool-cases (q == p)) [
  | inl same ↦ rw same (bytes_at-without_self p bs)
  | inr other ↦ rw (other, other) (bytes_at-without_self p bs)
]

pub bytes_at-without_ne :
    (p r : ℕ) (bs : List (ℕ × List ℕ)) → p ≢ r → bytes_at r (without p bs) ≡ bytes_at r bs
bytes_at-without_ne p r [] ne = refl
bytes_at-without_ne p r ((q, bytes) ∷ bs) ne = elim (Bool-cases (q == p)) [
  | inl same ↦
      let test : (q == r) ≡ false = ground (arith, same, ne) in
      rw (same, test) (bytes_at-without_ne p r bs ne)
  | inr other ↦ elim (Bool-cases (q == r)) [
    | inl here ↦ rw (other, here) refl
    | inr there ↦ rw (other, there) (bytes_at-without_ne p r bs ne)
  ]
]

-- What the assignment of the address `a` leaves, where the thread had the address `old`.
pub record IsAssigned (old a : Address) (m : Blocks) (c : Address) (m' : Blocks) : Type 0 where
  pub family : c.family ≡ a.family
  pub kind : c.kind ≡ a.kind
  pub protocol : c.protocol ≡ a.protocol
  pub own_block : c.ai_addr ≢ a.ai_addr
  pub copied : bytes_at c.ai_addr m'.live ≡ bytes_at a.ai_addr m.live
  pub freed : bytes_at old.ai_addr m'.live ≡ none
  pub others : (p : ℕ) → p ≢ old.ai_addr → p ≢ c.ai_addr → bytes_at p m'.live ≡ bytes_at p m.live

pub script_addr_copy_lem :
    (a : Address) (m : Blocks) (bytes : List ℕ)
    → bytes_at a.ai_addr m.live ≡ some bytes
    → script_addr_copy a m
      ≡ returned (
        record a { ai_addr = m.fresh },
        record { fresh = m.fresh + 1; live = (m.fresh, bytes) ∷ m.live },
      )
unfolding script_addr_copy
script_addr_copy_lem a m bytes e = rw e refl

-- A script that assigns an address to a thread that has one, each with a block of its own below the
-- next one to be given: the thread's address is then that of the script in a new block with the
-- same bytes, its old block is given back, and all other blocks, that of the script's address
-- among them, are as they were.
pub set_address_lem :
    (old a : Address) (m : Blocks) (old_bytes bytes : List ℕ)
    → bytes_at old.ai_addr m.live ≡ some old_bytes
    → bytes_at a.ai_addr m.live ≡ some bytes
    → old.ai_addr ≢ a.ai_addr
    → old.ai_addr < m.fresh
    → a.ai_addr < m.fresh
    → (c : Address) × (m' : Blocks) × (set_address (some old) a m ≡ returned (some c, m'))
      × IsAssigned old a m c m'
unfolding set_address
set_address_lem old a m old_bytes bytes had has apart old_given given =
    let left : Blocks = record m { live = without old.ai_addr m.live } in
    let still : bytes_at a.ai_addr left.live ≡ some bytes =
      bytes_at-without_ne old.ai_addr a.ai_addr m.live apart ∙ has in
    let new : (m.fresh == m.fresh) ≡ true = ground arith in
    let not_old : (m.fresh == old.ai_addr) ≡ false = ground arith in
    (
      record a { ai_addr = m.fresh },
      record { fresh = m.fresh + 1; live = (m.fresh, bytes) ∷ left.live },
      rw (had, script_addr_copy_lem a left bytes still) refl,
      record {
        family = refl;
        kind = refl;
        protocol = refl;
        own_block = λ e. absurd (omega (arith, e));
        copied = rw new (sym has);
        freed = rw not_old (bytes_at-without_self old.ai_addr m.live);
        others = λ p not_freed not_new.
            let skip : (m.fresh == p) ≡ false = ground (arith, not_new) in
            rw skip (bytes_at-without_ne old.ai_addr p m.live (λ e. not_freed (sym e)));
      },
    )

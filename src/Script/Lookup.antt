-- ===== src/Script/Lookup.antt =====
-- What script_wrk_lookup of wrk2/src/script.c gives a script, and what becomes of the blocks of the
-- addresses that getaddrinfo found.
use weaver_dsb.Prelude.{
  ℕ, ◌+◌, ◌≤◌, ◌<◌, ◌≡◌, ◌≢◌, refl, sym, ◌∙◌, true, false, none, some, List, [], ◌∷◌, arith,
}
use weaver_dsb.Prelude.Tests.{◌==◌}
use weaver_dsb.Prelude.Int.{pos, negsuc}
use weaver_dsb.Prelude.Checked.{returned}
use weaver_dsb.Script.{Value, number, table, other, Lua, IsLawful}
use weaver_dsb.Script.Stack.{after-push, after-new_table}
use weaver_dsb.Script.Threads.{
  Blocks, bytes_at, without, Address, free_addresses, script_addr_clone, put_addresses,
  script_wrk_lookup,
}
use weaver_dsb.Script.Addresses.{bytes_at-without_self, bytes_at-without_ne, script_addr_copy_lem}

-- no address has the block `p`
abbrev pub IsApart : ℕ → List Address → Type 0
IsApart p [] = Unit {0}
IsApart p (a ∷ addrs) = (a.ai_addr ≢ p) × IsApart p addrs

-- Each address has a live block of its own, below the next one to be given.
pub data AreOwned (m : Blocks) : List Address → Type 0 where
  no_addresses : AreOwned m []
  owned :
      {a : Address} {addrs : List Address} (bytes : List ℕ)
      → bytes_at a.ai_addr m.live ≡ some bytes
      → a.ai_addr < m.fresh
      → IsApart a.ai_addr addrs
      → AreOwned m addrs
      → AreOwned m (a ∷ addrs)

-- The blocks from `p` on hold, in order, the bytes that the addresses had.
abbrev pub AreCopied : Blocks → Blocks → ℕ → List Address → Type 0
AreCopied m m' p [] = Unit {0}
AreCopied m m' p (a ∷ addrs) =
    (bytes_at p m'.live ≡ bytes_at a.ai_addr m.live) × AreCopied m m' (p + 1) addrs

abbrev pub AreFreed : Blocks → List Address → Type 0
AreFreed m' [] = Unit {0}
AreFreed m' (a ∷ addrs) = (bytes_at a.ai_addr m'.live ≡ none) × AreFreed m' addrs

-- What a lookup that finds these addresses leaves of the blocks.
pub record IsLookedUp (addrs : List Address) (m m' : Blocks) : Type 0 where
  pub copies : AreCopied m m' m.fresh addrs
  pub freed : AreFreed m' addrs
  pub others : (p : ℕ) → p < m.fresh → IsApart p addrs → bytes_at p m'.live ≡ bytes_at p m.live

-- the addresses have the same bytes in both
abbrev AreSame : Blocks → Blocks → List Address → Type 0
AreSame m n [] = Unit {0}
AreSame m n (a ∷ addrs) =
    (bytes_at a.ai_addr n.live ≡ bytes_at a.ai_addr m.live) × AreSame m n addrs

AreSame-below :
    {m : Blocks} (n : Blocks) {addrs : List Address}
    → AreOwned m addrs
    → ((p : ℕ) → p < m.fresh → bytes_at p n.live ≡ bytes_at p m.live)
    → AreSame m n addrs
AreSame-below n no_addresses below = tt
AreSame-below n (owned {a} b e lt apart more) below =
    (below a.ai_addr lt, AreSame-below n more below)

AreSame-without :
    (m : Blocks) (p : ℕ) (addrs : List Address)
    → IsApart p addrs
    → AreSame m (record m { live = without p m.live }) addrs
AreSame-without m p [] apart = tt
AreSame-without m p (a ∷ addrs) (ne, apart) =
    (bytes_at-without_ne p a.ai_addr m.live (λ e. ne (sym e)), AreSame-without m p addrs apart)

AreOwned-same :
    {m : Blocks} (n : Blocks) {addrs : List Address}
    → m.fresh ≤ n.fresh
    → AreOwned m addrs
    → AreSame m n addrs
    → AreOwned n addrs
AreOwned-same n le no_addresses same = no_addresses
AreOwned-same n le (owned b e lt apart more) (here, same) =
    owned b (here ∙ e) (omega (arith, le, lt)) apart (AreOwned-same n le more same)

AreCopied-source :
    (m n m' : Blocks) (p : ℕ) (addrs : List Address)
    → AreSame m n addrs
    → AreCopied n m' p addrs
    → AreCopied m m' p addrs
AreCopied-source m n m' p [] same c = tt
AreCopied-source m n m' p (a ∷ addrs) (here, same) (c, cs) =
    (c ∙ here, AreCopied-source m n m' (p + 1) addrs same cs)

AreCopied-kept :
    (m n m' : Blocks) (least p : ℕ) (addrs : List Address)
    → least ≤ p
    → ((k : ℕ) → least ≤ k → bytes_at k m'.live ≡ bytes_at k n.live)
    → AreCopied m n p addrs
    → AreCopied m m' p addrs
AreCopied-kept m n m' least p [] le kept c = tt
AreCopied-kept m n m' least p (a ∷ addrs) le kept (c, cs) =
    (kept p le ∙ c, AreCopied-kept m n m' least (p + 1) addrs (omega (arith, le)) kept cs)

IsApart-above :
    {m : Blocks} {addrs : List Address} (p : ℕ) → m.fresh ≤ p → AreOwned m addrs → IsApart p addrs
IsApart-above p le no_addresses = tt
IsApart-above p le (owned b e lt apart more) =
    (λ same. absurd (omega (arith, same, le, lt)), IsApart-above p le more)

-- freeaddrinfo gives every block of the addresses back, and no other.
free_addresses_lem :
    {m : Blocks} (addrs : List Address)
    → AreOwned m addrs
    → (m' : Blocks) × (free_addresses addrs m ≡ returned m')
      × AreFreed m' addrs
      × ((p : ℕ) → IsApart p addrs → bytes_at p m'.live ≡ bytes_at p m.live)
unfolding free_addresses
free_addresses_lem {m} [] no_addresses = (m, refl, tt, λ p apart. refl)
free_addresses_lem {m} (a ∷ addrs) (owned b e lt apart more) =
    let n : Blocks = record m { live = without a.ai_addr m.live } in
    let (m', ran, freed, others) =
      free_addresses_lem {m = n} addrs
        (AreOwned-same n (omega arith) more (AreSame-without m a.ai_addr addrs apart)) in
    (
      m',
      rw e ran,
      (others a.ai_addr apart ∙ bytes_at-without_self a.ai_addr m.live, freed),
      λ p (ne, apart_p). others p apart_p ∙ bytes_at-without_ne a.ai_addr p m.live ne,
    )

module _ {L : Lua} (lawful : IsLawful L) (userdata : Address → L.Other) where
  -- The table of the clones: from the key `index` on, the addresses with the blocks from `p` on.
  abbrev pub clones_table : ℕ → ℕ → List Address → L.Table → L.Table
  clones_table index p [] t = t
  clones_table index p (a ∷ addrs) t =
      clones_table (index + 1) (p + 1) addrs
        (L.put (number (L.of_ℤ (pos index))) (other (userdata (record a { ai_addr = p }))) t)

  -- The loop clones every address into a new block.
  put_addresses_lem :
      {m : Blocks} (addrs : List Address) (index : ℕ) (s : L.State)
      (xs : List (Value L.Number L.Table L.Other)) (t : L.Table)
      → AreOwned m addrs
      → L.stack s ≡ table t ∷ xs
      → (s' : L.State) × (m' : Blocks) × (put_addresses L userdata index addrs (s, m)
          ≡ returned (s', m'))
        × (L.stack s' ≡ table (clones_table index m.fresh addrs t) ∷ xs)
        × (m.fresh ≤ m'.fresh)
        × AreCopied m m' m.fresh addrs
        × ((p : ℕ) → p < m.fresh → bytes_at p m'.live ≡ bytes_at p m.live)
  unfolding put_addresses script_addr_clone
  put_addresses_lem {m} [] index s xs t no_addresses e =
      (s, m, refl, e, omega arith, tt, λ p lt. refl)
  put_addresses_lem {m} (a ∷ addrs) index s xs t (owned b has lt apart more) e =
      let clone = record a { ai_addr = m.fresh } in
      let n : Blocks = record { fresh = m.fresh + 1; live = (m.fresh, b) ∷ m.live } in
      let below : (p : ℕ) → p < m.fresh → bytes_at p n.live ≡ bytes_at p m.live =
        λ p small. let test : (m.fresh == p) ≡ false = ground arith in rw test refl in
      let new : (m.fresh == m.fresh) ≡ true = ground arith in
      let same : AreSame m n addrs = AreSame-below n more below in
      let stored =
        lawful.stack-raw_seti (negsuc 1) index (L.push (other (userdata clone)) s)
          (other (userdata clone)) (table t ∷ xs) t (after-push lawful e (other (userdata clone)))
          (omega arith) refl in
      let (s', m', ran, left, grown, copies, kept) =
        put_addresses_lem {m = n} addrs (index + 1)
          (L.raw_seti (negsuc 1) index (L.push (other (userdata clone)) s)) xs _
          (AreOwned-same n (omega arith) more same) stored in
      (
        s',
        m',
        rw (script_addr_copy_lem a m b has) ran,
        left,
        omega (arith, grown),
        (
          kept m.fresh (omega arith) ∙ rw new (sym has),
          AreCopied-source m n m' (m.fresh + 1) addrs same copies,
        ),
        λ p small. kept p (omega arith) ∙ below p small,
      )

  -- Where getaddrinfo finds addresses that each have a block of their own, below the next one to be
  -- given, script_wrk_lookup returns and pushes one value, a table that holds, from the key 1 on, a
  -- clone of each address in order. The clones have new blocks with the bytes of the addresses, the
  -- blocks of the addresses are given back, and all other blocks are as they were.
  pub script_wrk_lookup_lem :
      (addrs : List Address) (m : Blocks) (s : L.State)
      → AreOwned m addrs
      → (s' : L.State) × (m' : Blocks) × (script_wrk_lookup L userdata (some addrs) (s, m)
          ≡ returned (s', m'))
        × (L.stack s' ≡ table (clones_table 1 m.fresh addrs L.empty) ∷ L.stack s)
        × IsLookedUp addrs m m'
  unfolding script_wrk_lookup
  script_wrk_lookup_lem addrs m s own =
      let (s', n, ran, left, grown, copies, kept) =
        put_addresses_lem {m = m} addrs 1 (L.new_table s) (L.stack s) L.empty own
          (after-new_table lawful {s = s} refl) in
      let (m', gone, freed, others) =
        free_addresses_lem {m = n} addrs (AreOwned-same n grown own (AreSame-below n own kept)) in
      (
        s',
        m',
        rw (ran, gone) refl,
        left,
        record {
          copies =
              AreCopied-kept m n m' m.fresh m.fresh addrs (omega arith)
                (λ k le. others k (IsApart-above k le own)) copies;
          freed = freed;
          others = λ p lt apart. others p apart ∙ kept p lt;
        },
      )

-- ===== src/Tests/Scripts.antt =====
-- The theorems about wrk2/src/script.c on a small machine.
use weaver_dsb.Prelude.{ℕ, ◌≤◌, ◌≡◌, ◌≢◌, ◌⊎◌, refl, true, some, List, [], ◌∷◌, arith}
use weaver_dsb.Prelude.Lists.{length}
use weaver_dsb.Prelude.Text.{codes}
use weaver_dsb.Prelude.Int.{pos}
use weaver_dsb.Prelude.Checked.{returned}
use weaver_dsb.Wrk.{Errors, Connection}
use weaver_dsb.Wrk.Receive.{terminate}
use weaver_dsb.Tests.Connections.{idle, empty}
use weaver_dsb.Tests.Machine.{machine, machine-IsLawful, Entries, put_entry, no_entry, reply}
use weaver_dsb.Script.{nil, string, table, number}
use weaver_dsb.Script.Report.{
  script_summary, script_errors, script_done, report_table, script_done_lem,
}
use weaver_dsb.Script.Calls.{
  script_request, request_function, script_is_function, script_resolve, script_init,
}
use weaver_dsb.Script.Balance.{calls-balance}
use weaver_dsb.Script.Threads.{Address, Blocks, set_address, script_wrk_lookup}
use weaver_dsb.Script.Addresses.{IsAssigned, set_address_lem}
use weaver_dsb.Script.Lookup.{no_addresses, owned, IsLookedUp, clones_table, script_wrk_lookup_lem}
use weaver_dsb.Script.Pieces.{Header, receive_headers}
use weaver_dsb.Script.RoundTrip.{no_more, not_zero, AreTexts, IsPassedOn, headers_lem}
use weaver_dsb.Script.Verify.{
  Parsed, verified, rejected, script_verify_request, IsLine, line_end, line_more,
  script_verify_request_lem,
}
use weaver_dsb.Script.Transfer.{
  script_copy_value, script_copy_value-table, Both, string_scalar, number_scalar,
}

abbrev some_errors : Errors
some_errors = record { connect = 1; read = 2; write = 3; status = 4; timeout = 5 }

script_done_lem_example :
    (script_errors machine some_errors (script_summary machine 10 20 30 [])
      ≡ table (report_table machine-IsLawful 10 20 30 some_errors) ∷ [])
    × (script_done machine 1 2
          (script_errors machine some_errors (script_summary machine 10 20 30 []))
        ≡ [])
script_done_lem_example = script_done_lem machine-IsLawful 10 20 30 some_errors 1 2 [] refl

-- "ab" in two pieces, with the value "c"
abbrev header : Header
header = record {
  name_first = 97 ∷ [];
  name_more = (98 ∷ []) ∷ [];
  value_first = 99 ∷ [];
  value_more = [];
}

header-AreTexts : AreTexts (header ∷ [])
header-AreTexts = (
  not_zero (λ e. absurd (omega (arith, e))) (not_zero (λ e. absurd (omega (arith, e))) no_more),
  not_zero (λ e. absurd (omega (arith, e))) no_more,
  tt,
)

headers_lem_example :
    (c' : Connection) × (receive_headers (header ∷ []) idle ≡ returned c')
    × IsPassedOn machine-IsLawful 200 (header ∷ []) (terminate c'.headers) empty []
headers_lem_example =
    headers_lem machine-IsLawful 200 header [] idle empty [] refl refl header-AreTexts

-- a parser that stops after four bytes
abbrev stops : List ℕ → Parsed
stops request = record { messages = 0; parsed = 4; failed = true }

stops-IsLine : IsLine (codes "GET ")
stops-IsLine =
    line_more (λ e. absurd (omega (arith, e)))
      (line_more (λ e. absurd (omega (arith, e)))
        (line_more (λ e. absurd (omega (arith, e)))
          (line_more (λ e. absurd (omega (arith, e))) line_end)))

requested : (script_request machine []).0 ≡ reply
unfolding script_request request_function
requested = refl

script_verify_request_lem_example :
    ((script_verify_request machine stops []).1 ≡ [])
    × (((4 ≡ length (script_request machine []).0)
          × (1 ≤ 0)
          × ((script_verify_request machine stops []).0 ≡ verified 0))
        ⊎ (((4 ≢ length (script_request machine []).0) ⊎ (◌≡◌ {A = ℕ} 0 0))
            × ((script_verify_request machine stops []).0 ≡ rejected true 1 5)))
unfolding script_request request_function
script_verify_request_lem_example =
    script_verify_request_lem {L = machine} machine-IsLawful stops [] [] (codes "GET ") tt
      stops-IsLine refl

-- a = 1
abbrev one_entry : Entries
one_entry = put_entry (string (codes "a")) (number (pos 1)) no_entry

script_copy_value-table_example :
    (r : Both machine) × (script_copy_value machine 3 0 (table one_entry ∷ [], []) ≡ returned r)
    × (r.0 ≡ [])
    × (r.1 ≡ table (put_entry (number (pos 1)) (string (codes "a")) no_entry) ∷ [])
script_copy_value-table_example =
    script_copy_value-table {L = machine} machine-IsLawful 2 0 one_entry
      ((string (codes "a"), number (pos 1)) ∷ []) (table one_entry ∷ []) [] refl
      (refl, string_scalar, number_scalar, refl) (omega arith)

calls-balance_example :
    ((script_request machine (nil ∷ [])).1 ≡ nil ∷ [])
    × ((script_is_function machine (codes "done") (nil ∷ [])).1 ≡ nil ∷ [])
    × ((script_resolve machine (codes "host") (codes "80") (nil ∷ [])).1 ≡ nil ∷ [])
    × ((script_init machine 5 (codes "a" ∷ codes "b" ∷ []) (nil ∷ [], [])).0 ≡ nil ∷ [])
    × ((script_init machine 5 (codes "a" ∷ codes "b" ∷ []) (nil ∷ [], [])).1 ≡ [])
calls-balance_example =
    calls-balance {L = machine} machine-IsLawful (nil ∷ []) [] no_entry (codes "done")
      (codes "host") (codes "80") 5 (codes "a" ∷ codes "b" ∷ []) refl

abbrev old_address : Address
old_address = record { family = 2; kind = 1; protocol = 6; ai_addr = 0 }

abbrev new_address : Address
new_address = record { family = 10; kind = 1; protocol = 6; ai_addr = 1 }

abbrev two_blocks : Blocks
two_blocks = record { fresh = 2; live = (1, codes "b") ∷ (0, codes "a") ∷ [] }

set_address_lem_example :
    (c : Address) × (m' : Blocks) × (set_address (some old_address) new_address two_blocks
      ≡ returned (some c, m'))
    × IsAssigned old_address new_address two_blocks c m'
set_address_lem_example =
    set_address_lem old_address new_address two_blocks (codes "a") (codes "b") refl refl
      (λ e. absurd (omega (arith, e))) (omega arith) (omega arith)

-- the userdata of an address, by the address of its block
abbrev by_block : Address → machine.Other
by_block a = a.ai_addr

script_wrk_lookup_lem_example :
    (s' : machine.State) × (m' : Blocks) × (script_wrk_lookup machine by_block
        (some (old_address ∷ new_address ∷ []))
        ([], two_blocks)
      ≡ returned (s', m'))
    × (machine.stack s'
        ≡ table (
            clones_table machine-IsLawful by_block 1 2
              (old_address ∷ new_address ∷ [])
              machine.empty)
          ∷ machine.stack [])
    × IsLookedUp (old_address ∷ new_address ∷ []) two_blocks m'
script_wrk_lookup_lem_example =
    script_wrk_lookup_lem machine-IsLawful by_block (old_address ∷ new_address ∷ []) two_blocks [] (
      owned (codes "a") refl (omega arith) ((λ e. absurd (omega (arith, e))), tt)
        (owned (codes "b") refl (omega arith) tt no_addresses))

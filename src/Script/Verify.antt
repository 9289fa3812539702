-- ===== src/Script/Verify.antt =====
-- script_verify_request of wrk2/src/script.c, with the callback verify_request.
-- http_parser_execute is the environment's: what it reports of the request is an argument.
use weaver_dsb.Prelude.{
  ℕ, zero, suc, ◌+◌, ◌≤◌, ◌≡◌, ◌≢◌, ◌⊎◌, inl, inr, refl, sym, ap, ap₂, ◌∙◌, Bool, true, false, ◌||◌,
  not, List, [], ◌∷◌, ◌++◌, arith, ℕ_discrete,
}
use mathlib.Core.List.{append_assoc, append-nil}
use weaver_dsb.Prelude.Tests.{◌==◌, if◌then◌else◌}
use weaver_dsb.Prelude.Lists.{length, take}
use weaver_dsb.Script.{Lua, IsLawful}
use weaver_dsb.Script.Calls.{script_request}
use weaver_dsb.Script.Balance.{script_request-stack}

-- what http_parser_execute reports: the messages completed, the bytes parsed, and whether the
-- parser is in an error
pub record Parsed : Type 0 where
  pub messages : ℕ
  pub parsed : ℕ
  pub failed : Bool

-- the counter, once for each message
unfoldable pub verify_request : ℕ → ℕ
verify_request count = count + 1

unfoldable pub count_messages : ℕ → ℕ → ℕ
count_messages zero count = count
count_messages (suc n) count = count_messages n (verify_request count)

-- the loop over the bytes parsed, from a line and a column
unfoldable pub position : List ℕ → ℕ × ℕ → ℕ × ℕ
position [] (line, column) = (line, column)
position (c ∷ cs) (line, column) =
    position cs (if c == 10 then (line + 1, 1) else (line, column + 1))

-- What the function does: it returns the count, or prints a message with a position, and exits.
pub data Verified : Type 0 where
  verified : ℕ → Verified
  rejected : Bool → ℕ → ℕ → Verified

unfoldable pub judge : Parsed → List ℕ → Verified
judge p request =
    let count = count_messages p.messages 0 in
    if not (p.parsed == length request) || (count == 0)
    then (let (line, column) = position (take p.parsed request) (1, 1) in
        rejected p.failed line column)
    else verified count

-- The parser is an argument.
unfoldable pub script_verify_request : (L : Lua) → (List ℕ → Parsed) → L.State → Verified × L.State
script_verify_request L execute s =
    let (request, s') = script_request L s in (judge (execute request) request, s')

-- a text without a line feed, and lines that each end in one
pub data IsLine : List ℕ → Type 0 where
  line_end : IsLine []
  line_more : {c : ℕ} {cs : List ℕ} → c ≢ 10 → IsLine cs → IsLine (c ∷ cs)

abbrev pub unlines : List (List ℕ) → List ℕ
unlines [] = []
unlines (l ∷ ls) = l ++ (10 ∷ unlines ls)

abbrev pub AreLines : List (List ℕ) → Type 0
AreLines [] = Unit {0}
AreLines (l ∷ ls) = IsLine l × AreLines ls

-- within a line only the column moves
position-line :
    (l rest : List ℕ) (line column : ℕ)
    → IsLine l
    → position (l ++ rest) (line, column) ≡ position rest (line, length l + column)
unfolding position
position-line [] rest line column line_end = ap (λ k. position rest (line, k)) (omega arith)
position-line (c ∷ l) rest line column (line_more ne is) =
    let test : (c == 10) ≡ false = ground (arith, ne) in
    ap (position (l ++ rest)) (rw test refl)
    ∙ (position-line l rest line (column + 1) is ∙ ap (λ k. position rest (line, k)) (omega arith))

position-lines :
    (ls : List (List ℕ)) (last : List ℕ) (line : ℕ)
    → AreLines ls
    → IsLine last
    → position (unlines ls ++ last) (line, 1) ≡ (line + length ls, 1 + length last)
unfolding position
position-lines [] last line _ is =
    ap (λ u. position u (line, 1)) (sym (append-nil last))
    ∙ position-line last [] line 1 is
    ∙ ap₂ (λ a b. (a, b)) (omega arith) (omega arith)
position-lines (l ∷ ls) last line (one, all) is =
    ap (λ u. position u (line, 1)) (append_assoc l (10 ∷ unlines ls) last)
    ∙ position-line l (10 ∷ (unlines ls ++ last)) line 1 one
    ∙ position-lines ls last (line + 1) all is
    ∙ ap (λ k. (k, 1 + length last)) (omega arith)

count_messages_lem : (n count : ℕ) → count_messages n count ≡ n + count
unfolding count_messages verify_request
count_messages_lem zero count = omega arith
count_messages_lem (suc n) count = omega (arith, count_messages_lem n (count + 1))

-- what judge does with the request
judged :
    (p : Parsed) (request : List ℕ) (ls : List (List ℕ)) (last : List ℕ)
    → AreLines ls
    → IsLine last
    → take p.parsed request ≡ unlines ls ++ last
    → ((p.parsed ≡ length request) × (1 ≤ p.messages) × (judge p request ≡ verified p.messages))
      ⊎ (((p.parsed ≢ length request) ⊎ (p.messages ≡ 0))
          × (judge p request ≡ rejected p.failed (1 + length ls) (1 + length last)))
unfolding judge
judged p request ls last all is e =
    let at : position (take p.parsed request) (1, 1) ≡ (1 + length ls, 1 + length last) =
      ap (λ u. position u (1, 1)) e ∙ position-lines ls last 1 all is in
    elim (ℕ_discrete p.parsed (length request)) [
      | no other ↦
          let test : (p.parsed == length request) ≡ false = ground (arith, other) in
          inr (inl other, rw (test, at) refl)
      | yes whole ↦
          let test : (p.parsed == length request) ≡ true = ground (arith, whole) in
          elim (ℕ_discrete p.messages 0) [
            | yes nothing_there ↦
                let empty : (count_messages p.messages 0 == 0) ≡ true =
                  ground (arith, count_messages_lem p.messages 0, nothing_there) in
                inr (inr nothing_there, rw (test, empty, at) refl)
            | no some_there ↦
                let full : (count_messages p.messages 0 == 0) ≡ false =
                  ground (arith, count_messages_lem p.messages 0, some_there) in
                inl (
                  whole,
                  omega (arith, some_there),
                  rw (test, full) (ap verified (omega (arith, count_messages_lem p.messages 0))),
                )
          ]
    ]

-- script_verify_request leaves the stack as it was. If the parser takes the whole request and
-- completes a message, it returns the number of messages. Otherwise it exits with a message, at the
-- line and the column, both from 1, that follow the bytes parsed: the lines ended before, and
-- the bytes since.
pub script_verify_request_lem :
    {L : Lua} (lawful : IsLawful L) (execute : List ℕ → Parsed) (s : L.State) (ls : List (List ℕ))
    (last : List ℕ)
    → AreLines ls
    → IsLine last
    → take (execute (script_request L s).0).parsed (script_request L s).0 ≡ unlines ls ++ last
    → (L.stack (script_verify_request L execute s).1 ≡ L.stack s)
      × (((execute (script_request L s).0).parsed ≡ length (script_request L s).0)
            × (1 ≤ (execute (script_request L s).0).messages)
            × ((script_verify_request L execute s).0
                ≡ verified (execute (script_request L s).0).messages)
          ⊎ (((execute (script_request L s).0).parsed ≢ length (script_request L s).0)
              ⊎ ((execute (script_request L s).0).messages ≡ 0))
            × ((script_verify_request L execute s).0
                ≡ rejected
                    (execute (script_request L s).0).failed
                    (1 + length ls)
                    (1 + length last)))
unfolding script_verify_request
script_verify_request_lem {L} lawful execute s ls last all is e = (
  script_request-stack lawful s,
  judged (execute (script_request L s).0) (script_request L s).0 ls last all is e,
)

-- ===== src/Script/Responses.antt =====
-- script_response of wrk2/src/script.c, with buffer_pushlstring.
use weaver_dsb.Prelude.{ℕ, zero, suc, Option, none, some, List, [], ◌∷◌}
use weaver_dsb.Prelude.Tests.{◌==◌, if◌then◌else◌}
use weaver_dsb.Prelude.Lists.{length}
use weaver_dsb.Prelude.Text.{codes}
use weaver_dsb.Prelude.Int.{pos, negsuc}
use weaver_dsb.Prelude.Checked.{Checked, returned, aborted, out_of_fuel, ◌>>=◌}
use weaver_dsb.Buffers.{Buffer, buffer_reset}
use weaver_dsb.Script.{number, string, Lua}

abbrev pub prepend : ℕ → Option (List ℕ × List ℕ) → Option (List ℕ × List ℕ)
prepend c none = none
prepend c (some (text, rest)) = some (c ∷ text, rest)

-- the bytes up to the first zero, and what follows it; `none` if the zero lies past the cursor
unfoldable pub until_zero : List ℕ → Option (List ℕ × List ℕ)
until_zero [] = none
until_zero (c ∷ cs) = let rest = until_zero cs in if c == 0 then some ([], cs) else prepend c rest

module _ (L : Lua) where
  abbrev pub push_text : Option (List ℕ × List ℕ) → L.State → Checked (List ℕ × L.State)
  push_text none s = aborted
  push_text (some (text, rest)) s = returned (rest, L.push (string text) s)

  -- The new start is what is left of the buffer; a string that ends past the cursor aborts.
  unfoldable pub buffer_pushlstring : List ℕ → L.State → Checked (List ℕ × L.State)
  buffer_pushlstring start s = push_text (until_zero start) s

  -- one round of the loop
  unfoldable pub push_header : List ℕ → L.State → Checked (List ℕ × L.State)
  push_header c s = do
    named ← buffer_pushlstring c s
    valued ← buffer_pushlstring named.0 named.1
    returned (valued.0, L.set_table (negsuc 2) valued.1)

  -- The loop over the headers, on fuel: a round takes two bytes at least.
  unfoldable pub push_headers : ℕ → List ℕ → L.State → Checked L.State
  push_headers fuel [] s = returned s
  push_headers zero (c ∷ cs) s = out_of_fuel
  push_headers (suc fuel) (c ∷ cs) s = push_header (c ∷ cs) s >>= λ r. push_headers fuel r.0 r.1

  -- the function, the status and the table of the headers
  abbrev pub response_frame : ℕ → L.State → L.State
  response_frame status s =
      L.new_table (L.push (number (L.of_ℤ (pos status))) (L.get_global (codes "response") s))

  unfoldable pub script_response :
      ℕ → Buffer → Buffer → L.State → Checked (Buffer × Buffer × L.State)
  script_response status headers body s = do
    filled ← push_headers (length headers.used) headers.used (response_frame status s)
    returned
        (buffer_reset headers, buffer_reset body, L.call 3 0 (L.push (string body.used) filled))

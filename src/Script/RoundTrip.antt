-- ===== src/Script/RoundTrip.antt =====
-- The headers that the parser reports in wrk2/src/wrk.c come to the script as they were.
use weaver_dsb.Prelude.{
  ℕ, zero, suc, ◌+◌, ◌≤◌, ◌<◌, ◌≡◌, ◌≢◌, refl, false, sym, ap, ◌∙◌, some, List, [], ◌∷◌, ◌++◌,
  arith,
}
use weaver_dsb.Prelude.Tests.{◌==◌}
use weaver_dsb.Prelude.Lists.{length, length-append, get_or}
use weaver_dsb.Prelude.Text.{codes}
use weaver_dsb.Prelude.Int.{pos, negsuc}
use weaver_dsb.Prelude.Checked.{returned, ◌>>=◌}
use weaver_dsb.Buffers.{Buffer, buffer_reset}
use weaver_dsb.Wrk.{Connection, field}
use weaver_dsb.Wrk.Receive.{terminate}
use weaver_dsb.Script.{Value, nil, string, table, number, Lua, IsLawful}
use weaver_dsb.Script.Stack.{after-push, after-get_global, after-new_table, after-call}
use weaver_dsb.Script.Responses.{
  until_zero, buffer_pushlstring, push_header, push_headers, response_frame, script_response,
}
use weaver_dsb.Script.Pieces.{
  Header, name_of, value_of, receive_headers, encoded, settled-field, settled-value,
  receive_headers_lem,
}

-- A text without a zero in it.
pub data NoZero : List ℕ → Type 0 where
  no_more : NoZero []
  not_zero : {c : ℕ} {cs : List ℕ} → c ≢ 0 → NoZero cs → NoZero (c ∷ cs)

-- neither text of the headers has a zero in it
abbrev pub AreTexts : List Header → Type 0
AreTexts [] = Unit {0}
AreTexts (h ∷ hs) = NoZero (name_of h) × NoZero (value_of h) × AreTexts hs

until_zero_lem :
    (text rest : List ℕ) → NoZero text → until_zero ((text ++ (0 ∷ [])) ++ rest) ≡ some (text, rest)
unfolding until_zero
until_zero_lem [] rest no_more = refl
until_zero_lem (c ∷ text) rest (not_zero ne z) =
    let test : (c == 0) ≡ false = ground (arith, ne) in rw (test, until_zero_lem text rest z) refl

length-encoded :
    (h : Header) (hs : List Header) → length (encoded hs) + 2 ≤ length (encoded (h ∷ hs))
length-encoded h hs =
    let text = value_of h ++ (0 ∷ []) in
    omega (
      arith,
      length-append (name_of h ++ (0 ∷ [])) (text ++ encoded hs),
      length-append (name_of h) (0 ∷ []),
      length-append text (encoded hs),
      length-append (value_of h) (0 ∷ []),
    )

module _ {L : Lua} (lawful : IsLawful L) where
  abbrev pub put_all : List Header → L.Table → L.Table
  put_all [] t = t
  put_all (h ∷ hs) t = put_all hs (L.put (string (name_of h)) (string (value_of h)) t)

  push_headers-more :
      (fuel : ℕ) (c : List ℕ) (s : L.State)
      → 0 < length c
      → push_headers L (suc fuel) c s ≡ push_header L c s >>= λ r. push_headers L fuel r.0 r.1
  unfolding push_headers
  push_headers-more fuel [] s h = absurd (omega arith)
  push_headers-more fuel (c ∷ cs) s h = refl

  push_header_lem :
      (name text rest : List ℕ) (s : L.State) (t : L.Table)
      (xs : List (Value L.Number L.Table L.Other))
      → NoZero name
      → NoZero text
      → L.stack s ≡ table t ∷ xs
      → (s' : L.State) × (push_header L ((name ++ (0 ∷ [])) ++ ((text ++ (0 ∷ [])) ++ rest)) s
          ≡ returned (rest, s'))
        × (L.stack s' ≡ table (L.put (string name) (string text) t) ∷ xs)
  unfolding push_header buffer_pushlstring
  push_header_lem name text rest s t xs a b e = (
    L.set_table (negsuc 2) (L.push (string text) (L.push (string name) s)),
    rw (until_zero_lem name ((text ++ (0 ∷ [])) ++ rest) a, until_zero_lem text rest b) refl,
    lawful.stack-set_table (negsuc 2) _ (string text) (string name) (table t ∷ xs) t
        (after-push lawful (after-push lawful e (string name)) (string text)) (omega arith) refl,
  )

  push_headers_lem :
      (fuel : ℕ) (hs : List Header) (s : L.State) (t : L.Table)
      (xs : List (Value L.Number L.Table L.Other))
      → length (encoded hs) ≤ fuel
      → AreTexts hs
      → L.stack s ≡ table t ∷ xs
      → (s' : L.State) × (push_headers L fuel (encoded hs) s ≡ returned s')
        × (L.stack s' ≡ table (put_all hs t) ∷ xs)
  unfolding push_headers
  push_headers_lem fuel [] s t xs enough texts e = (s, refl, e)
  push_headers_lem zero (h ∷ hs) s t xs enough texts e =
      absurd (omega (arith, length-encoded h hs, enough))
  push_headers_lem (suc fuel) (h ∷ hs) s t xs enough (a, b, texts) e =
      let (d, ran, put) = push_header_lem (name_of h) (value_of h) (encoded hs) s t xs a b e in
      let (s', went, all) =
        push_headers_lem fuel hs d _ xs (omega (arith, length-encoded h hs, enough)) texts put in
      (
        s',
        push_headers-more fuel (encoded (h ∷ hs)) s (omega (arith, length-encoded h hs))
            ∙ rw (ran, went) refl,
        all,
      )

  -- What script_response does with the headers of the parser.
  pub record IsPassedOn (status : ℕ) (hs : List Header) (headers body : Buffer) (s : L.State)
      : Type 0 where
    pub filled : L.State
    pub after : L.State
    pub pushed :
        push_headers L (length headers.used) headers.used (response_frame L status s)
        ≡ returned filled
    pub shown : get_or (L.stack filled) 0 nil ≡ table (put_all hs L.empty)
    pub ran :
        script_response L status headers body s
        ≡ returned (buffer_reset headers, buffer_reset body, after)
    pub balanced : L.stack after ≡ L.stack s

  -- Headers that the parser reports in pieces, at least one header and none with a zero in it, on
  -- a connection whose buffer of headers is empty and that waits for a field: the callbacks
  -- return, and script_response, on the buffer that response_complete ends, pushes a table with
  -- each header's whole name and whole value, in their order, calls the script, empties both
  -- buffers, and leaves the stack as it was.
  pub headers_lem :
      (status : ℕ) (h : Header) (hs : List Header) (c : Connection) (body : Buffer) (s : L.State)
      → c.state ≡ field
      → c.headers.used ≡ []
      → AreTexts (h ∷ hs)
      → (c' : Connection) × (receive_headers (h ∷ hs) c ≡ returned c')
        × IsPassedOn status (h ∷ hs) (terminate c'.headers) body s
  unfolding script_response
  headers_lem status h hs c body s on none_yet texts =
      let (c', went, is, all) = receive_headers_lem h hs c in
      let used : (terminate c'.headers).used ≡ encoded (h ∷ hs) =
        sym (settled-value c' is)
        ∙ all
        ∙ ap (λ u. u ++ encoded (h ∷ hs)) (settled-field c on ∙ none_yet) in
      let (f, found) = after-get_global lawful {s = s} refl (codes "response") in
      let frame = after-new_table lawful (after-push lawful found (number (L.of_ℤ (pos status)))) in
      let (s', pushed, shown) =
        push_headers_lem (length (encoded (h ∷ hs))) (h ∷ hs) (response_frame L status s) L.empty _
          (omega arith) texts frame in
      (
        c',
        went,
        record {
          filled = s';
          after = L.call 3 0 (L.push (string body.used) s');
          pushed = rw used pushed;
          shown = rw shown refl;
          ran = rw (used, pushed) refl;
          balanced = after-call lawful (after-push lawful shown (string body.used)) 3;
        },
      )

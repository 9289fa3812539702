-- ===== src/Script/Pieces.antt =====
-- header_field and header_value of wrk2/src/wrk.c gather the texts of the headers from the pieces
-- that the parser reports, each with a zero behind it.
use weaver_dsb.Prelude.{ℕ, ◌≡◌, refl, sym, ap, ◌∙◌, List, [], ◌∷◌, ◌++◌}
use mathlib.Core.List.{append_assoc, append-nil}
use weaver_dsb.Prelude.Checked.{Checked, returned, ◌>>=◌}
use weaver_dsb.Buffers.Room.{buffer_append_lem}
use weaver_dsb.Wrk.{Connection, HeaderState, field, value}
use weaver_dsb.Wrk.Receive.{header_field, header_value, enter_field, enter_value}

-- A header in the pieces in which the parser reports it, one at least of each.
pub record Header : Type 0 where
  pub name_first : List ℕ
  pub name_more : List (List ℕ)
  pub value_first : List ℕ
  pub value_more : List (List ℕ)

abbrev pub joined : List ℕ → List (List ℕ) → List ℕ
joined text [] = text
joined text (more ∷ rest) = joined (text ++ more) rest

abbrev pub name_of : Header → List ℕ
name_of h = joined h.name_first h.name_more

abbrev pub value_of : Header → List ℕ
value_of h = joined h.value_first h.value_more

abbrev pub each_piece :
    (List ℕ → Connection → Checked Connection) → List (List ℕ) → Connection → Checked Connection
each_piece on [] c = returned c
each_piece on (text ∷ rest) c = on text c >>= each_piece on rest

-- the callbacks for a list of headers
abbrev pub receive_header : Header → Connection → Checked Connection
receive_header h c =
    each_piece header_field (h.name_first ∷ h.name_more) c
    >>= each_piece header_value (h.value_first ∷ h.value_more)

abbrev pub receive_headers : List Header → Connection → Checked Connection
receive_headers [] c = returned c
receive_headers (h ∷ hs) c = receive_header h c >>= receive_headers hs

-- the bytes of the headers, each text with its zero
abbrev pub encoded : List Header → List ℕ
encoded [] = []
encoded (h ∷ hs) = (name_of h ++ (0 ∷ [])) ++ ((value_of h ++ (0 ∷ [])) ++ encoded hs)

-- the texts before a field, and before a value, each ended
abbrev pub settled : Connection → List ℕ
settled c = (enter_field c).headers.used

abbrev pub named : Connection → List ℕ
named c = (enter_value c).headers.used

enter_field-state : (s : HeaderState) (c : Connection) → c.state ≡ s → (enter_field c).state ≡ field
unfolding enter_field
enter_field-state field c e = rw e refl
enter_field-state value c e = rw e refl

enter_value-state : (s : HeaderState) (c : Connection) → c.state ≡ s → (enter_value c).state ≡ value
unfolding enter_value
enter_value-state field c e = rw e refl
enter_value-state value c e = rw e refl

pub settled-field : (c : Connection) → c.state ≡ field → settled c ≡ c.headers.used
unfolding enter_field
settled-field c e = rw e refl

pub settled-value : (c : Connection) → c.state ≡ value → settled c ≡ c.headers.used ++ (0 ∷ [])
unfolding enter_field
settled-value c e = rw e refl

named-value : (c : Connection) → c.state ≡ value → named c ≡ c.headers.used
unfolding enter_value
named-value c e = rw e refl

named-field : (c : Connection) → c.state ≡ field → named c ≡ c.headers.used ++ (0 ∷ [])
unfolding enter_value
named-field c e = rw e refl

joined-append :
    (base text : List ℕ) (rest : List (List ℕ))
    → joined (base ++ text) rest ≡ base ++ joined text rest
joined-append base text [] = refl
joined-append base text (more ∷ rest) =
    ap (λ u. joined u rest) (append_assoc base text more) ∙ joined-append base (text ++ more) rest

-- the callbacks of one name, and of one value
fields_lem :
    (text : List ℕ) (rest : List (List ℕ)) (c : Connection)
    → (c' : Connection) × (each_piece header_field (text ∷ rest) c ≡ returned c')
      × (c'.state ≡ field)
      × (c'.headers.used ≡ settled c ++ joined text rest)
unfolding header_field
fields_lem text [] c =
    let (b, ran, used, _, _) = buffer_append_lem (enter_field c).headers text in
    (record (enter_field c) { headers = b }, rw ran refl, enter_field-state c.state c refl, used)
fields_lem text (more ∷ rest) c =
    let (b, ran, used, _, _) = buffer_append_lem (enter_field c).headers text in
    let d = record (enter_field c) { headers = b } in
    let on : d.state ≡ field = enter_field-state c.state c refl in
    let (c', went, is, all) = fields_lem more rest d in
    (
      c',
      rw ran went,
      is,
      all
          ∙ ap (λ u. u ++ joined more rest) (settled-field d on ∙ used)
          ∙ append_assoc (settled c) text (joined more rest)
          ∙ ap (λ u. settled c ++ u) (sym (joined-append text more rest)),
    )

values_lem :
    (text : List ℕ) (rest : List (List ℕ)) (c : Connection)
    → (c' : Connection) × (each_piece header_value (text ∷ rest) c ≡ returned c')
      × (c'.state ≡ value)
      × (c'.headers.used ≡ named c ++ joined text rest)
unfolding header_value
values_lem text [] c =
    let (b, ran, used, _, _) = buffer_append_lem (enter_value c).headers text in
    (record (enter_value c) { headers = b }, rw ran refl, enter_value-state c.state c refl, used)
values_lem text (more ∷ rest) c =
    let (b, ran, used, _, _) = buffer_append_lem (enter_value c).headers text in
    let d = record (enter_value c) { headers = b } in
    let on : d.state ≡ value = enter_value-state c.state c refl in
    let (c', went, is, all) = values_lem more rest d in
    (
      c',
      rw ran went,
      is,
      all
          ∙ ap (λ u. u ++ joined more rest) (named-value d on ∙ used)
          ∙ append_assoc (named c) text (joined more rest)
          ∙ ap (λ u. named c ++ u) (sym (joined-append text more rest)),
    )

regroup : (a b c z : List ℕ) → (((a ++ b) ++ z) ++ c) ++ z ≡ a ++ ((b ++ z) ++ (c ++ z))
regroup a b c z = simp (append_assoc)

abbrev pub coded : Header → List ℕ
coded h = (name_of h ++ (0 ∷ [])) ++ (value_of h ++ (0 ∷ []))

receive_header_lem :
    (h : Header) (c : Connection)
    → (c' : Connection) × (receive_header h c ≡ returned c')
      × (c'.state ≡ value)
      × (settled c' ≡ settled c ++ coded h)
receive_header_lem h c =
    let (d, ran, on, names) = fields_lem h.name_first h.name_more c in
    let (c', went, is, values) = values_lem h.value_first h.value_more d in
    (
      c',
      rw ran went,
      is,
      settled-value c' is
          ∙ ap (λ u. u ++ (0 ∷ []))
              (values
                ∙ ap (λ u. u ++ value_of h) (named-field d on ∙ ap (λ u. u ++ (0 ∷ [])) names))
          ∙ regroup (settled c) (name_of h) (value_of h) (0 ∷ []),
    )

-- the callbacks for some headers
pub receive_headers_lem :
    (h : Header) (hs : List Header) (c : Connection)
    → (c' : Connection) × (receive_headers (h ∷ hs) c ≡ returned c')
      × (c'.state ≡ value)
      × (settled c' ≡ settled c ++ encoded (h ∷ hs))
receive_headers_lem h [] c =
    let (c', ran, is, all) = receive_header_lem h c in
    (
      c',
      rw ran refl,
      is,
      all
          ∙ ap (λ u. settled c ++ ((name_of h ++ (0 ∷ [])) ++ u))
              (sym (append-nil (value_of h ++ (0 ∷ [])))),
    )
receive_headers_lem h (g ∷ hs) c =
    let (d, ran, on, all) = receive_header_lem h c in
    let (c', went, is, more) = receive_headers_lem g hs d in
    (
      c',
      rw ran went,
      is,
      more
          ∙ ap (λ u. u ++ encoded (g ∷ hs)) all
          ∙ append_assoc (settled c) (coded h) (encoded (g ∷ hs))
          ∙ ap (λ u. settled c ++ u)
              (append_assoc (name_of h ++ (0 ∷ [])) (value_of h ++ (0 ∷ [])) (encoded (g ∷ hs))),
    )

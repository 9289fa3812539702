-- ===== src/Wrk/Read.antt =====
-- socket_readable of wrk2/src/wrk.c, with the calls that http_parser_execute makes.
use weaver_dsb.Prelude.{ℕ, Bool, ◌&&◌, List, [], ◌∷◌}
use weaver_dsb.Prelude.Tests.{ltb, ◌==◌, if◌then◌else◌}
use weaver_dsb.Prelude.Int.{add64}
use weaver_dsb.Prelude.Float.{Float}
use weaver_dsb.Prelude.Checked.{Checked, returned, out_of_fuel, ◌>>=◌}
use weaver_dsb.Wrk.{Config, Connection, Local, Status, ok, error, retry, reconnect_socket, count32}
use weaver_dsb.Wrk.Receive.{Response, header_field, header_value, response_body, response_complete}

-- a callback of the parser
pub data Parsed : Type 0 where
  on_header_field on_header_value on_body : List ℕ → Parsed
  on_message_complete : Response → Parsed

-- a callback that works on the connection alone
on_conn : Local → Checked Connection → Checked Local
on_conn l c = c >>= λ c'. returned (record l { conn = c' })

unfoldable pub on_parsed : Float → Config → Parsed → Local → Checked Local
unfolding on_conn
on_parsed f cfg (on_header_field text) l = on_conn l (header_field text l.conn)
on_parsed f cfg (on_header_value text) l = on_conn l (header_value text l.conn)
on_parsed f cfg (on_body text) l = on_conn l (response_body text l.conn)
on_parsed f cfg (on_message_complete r) l = response_complete f cfg r l

unfoldable pub on_all : Float → Config → List Parsed → Local → Checked Local
on_all f cfg [] l = returned l
on_all f cfg (p ∷ ps) l = on_parsed f cfg p l >>= λ l'. on_all f cfg ps l'

-- What one round of the loop meets: the status of `sock.read` and the bytes read, the callbacks
-- that the parser makes on them, the bytes that it says it parsed, and what `sock.readable` says.
pub record Reading : Type 0 where
  pub status : Status
  pub n : ℕ
  pub callbacks : List Parsed
  pub parsed : ℕ
  pub readable : ℕ

-- RECVBUF
abbrev pub recvbuf : ℕ
recvbuf = 8192

unfoldable pub read_error : Bool → Local → Local
read_error opened l = reconnect_socket opened (record l {
  thread = record l.thread {
    errors = record l.thread.errors { read = count32 l.thread.errors.read };
  };
})

abbrev pub count_bytes : ℕ → Local → Local
count_bytes n l = record l { thread = record l.thread { bytes = add64 l.thread.bytes n } }

-- The rest of a round, once the parser has returned; `rest` is the next round.
unfoldable pub after_parsing : Bool → Reading → (Local → Checked Local) → Local → Checked Local
after_parsing opened x rest l =
    let more = rest (count_bytes x.n l) in
    if x.parsed == x.n
    then (if (x.n == recvbuf) && ltb 0 x.readable then more else returned (count_bytes x.n l))
    else returned (read_error opened l)

-- The loop, over what its rounds meet; `out_of_fuel` where it would go on past them.
unfoldable pub socket_readable : Float → Config → Bool → List Reading → Local → Checked Local
socket_readable f cfg opened [] l = out_of_fuel
socket_readable f cfg opened (x ∷ xs) l = elim x.status [
  | error ↦ returned (read_error opened l)
  | retry ↦ returned l
  | ok ↦ on_all f cfg x.callbacks l >>= λ l'.
      after_parsing opened x (λ m. socket_readable f cfg opened xs m) l'
]

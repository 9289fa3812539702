-- ===== src/Wrk/Callbacks.antt =====
-- socket_readable of wrk2/src/wrk.c, with all that runs inside it, does not touch the schedule of
-- its connection.
use weaver_dsb.Prelude.{ℕ, ◌≡◌, refl, subst, Bool, ◌&&◌, List, [], ◌∷◌, inl, inr}
use weaver_dsb.Prelude.Tests.{ltb, ◌==◌, Bool-cases}
use weaver_dsb.Prelude.Inversion.{returned_inj, bind_inv}
use weaver_dsb.Prelude.Float.{Float}
use weaver_dsb.Prelude.Checked.{Checked, returned, ◌>>=◌}
use weaver_dsb.Buffers.{Buffer, buffer_append}
use weaver_dsb.Wrk.{Config, Connection, HeaderState, field, value, Local, Status, ok, error, retry}
use weaver_dsb.Wrk.Receive.{header_field, header_value, response_body, enter_field, enter_value}
use weaver_dsb.Wrk.Read.{
  Parsed, on_header_field, on_header_value, on_body, on_message_complete, on_parsed, on_all,
  Reading, recvbuf, read_error, count_bytes, after_parsing, socket_readable,
}
use weaver_dsb.Wrk.Schedule.{IsOnSchedule, reconnect_socket-conn}
use weaver_dsb.Wrk.Still.{response_complete-IsOnSchedule}

IsOnSchedule-headers :
    {o : ℕ × ℕ} {now : ℕ} {c : Connection} (state : HeaderState) (headers body : Buffer)
    → IsOnSchedule o now c
    → IsOnSchedule o now (record c { state = state; headers = headers; body = body })
IsOnSchedule-headers state headers body v = record {
  ahead = v.ahead;
  near = v.near;
  planned = v.planned;
  due = v.due;
  gap = v.gap;
  gap_fits = v.gap_fits;
  origin = v.origin;
}

IsOnSchedule-enter_field :
    {o : ℕ × ℕ} {now : ℕ} (c : Connection)
    → IsOnSchedule o now c
    → IsOnSchedule o now (enter_field c)
unfolding enter_field
IsOnSchedule-enter_field {o} {now} c v = by_state c.state refl
  where
    by_state : (s : HeaderState) → c.state ≡ s → IsOnSchedule o now (enter_field c)
    by_state field e = rw e (IsOnSchedule-headers field c.headers c.body v)
    by_state value e = rw e (IsOnSchedule-headers _ _ _ v)

IsOnSchedule-enter_value :
    {o : ℕ × ℕ} {now : ℕ} (c : Connection)
    → IsOnSchedule o now c
    → IsOnSchedule o now (enter_value c)
unfolding enter_value
IsOnSchedule-enter_value {o} {now} c v = by_state c.state refl
  where
    by_state : (s : HeaderState) → c.state ≡ s → IsOnSchedule o now (enter_value c)
    by_state field e = rw e (IsOnSchedule-headers _ _ _ v)
    by_state value e = rw e (IsOnSchedule-headers value c.headers c.body v)

module _ {o : ℕ × ℕ} {now : ℕ} where
  -- the end of a callback that appends to a buffer
  appended :
      (b : Checked Buffer) (set_buffer : Buffer → Connection) (l l' : Local)
      → ((x : Buffer) → IsOnSchedule o now (set_buffer x))
      → ((b >>= λ x. returned (set_buffer x)) >>= λ c. returned (record l { conn = c }))
        ≡ returned l'
      → IsOnSchedule o now l'.conn
  appended b set_buffer l l' v e =
      let (c, ran, left) =
        bind_inv (b >>= λ x. returned (set_buffer x)) (λ c. returned (record l { conn = c })) l'
          e in
      let (x, ran', left') = bind_inv b (λ x. returned (set_buffer x)) c ran in
      subst (λ (m : Local). IsOnSchedule o now m.conn) (returned_inj left)
        (subst (IsOnSchedule o now) (returned_inj left') (v x))

  on_parsed-IsOnSchedule :
      (f : Float) (cfg : Config) (p : Parsed) (l l' : Local)
      → IsOnSchedule o now l.conn
      → on_parsed f cfg p l ≡ returned l'
      → IsOnSchedule o now l'.conn
  unfolding on_parsed header_field header_value response_body
  on_parsed-IsOnSchedule f cfg (on_header_field text) l l' v e =
      appended (buffer_append (enter_field l.conn).headers text)
        (λ x. record (enter_field l.conn) { headers = x }) l l'
        (λ x. IsOnSchedule-headers _ x _ (IsOnSchedule-enter_field l.conn v)) e
  on_parsed-IsOnSchedule f cfg (on_header_value text) l l' v e =
      appended (buffer_append (enter_value l.conn).headers text)
        (λ x. record (enter_value l.conn) { headers = x }) l l'
        (λ x. IsOnSchedule-headers _ x _ (IsOnSchedule-enter_value l.conn v)) e
  on_parsed-IsOnSchedule f cfg (on_body text) l l' v e =
      appended (buffer_append l.conn.body text) (λ x. record l.conn { body = x }) l l'
        (λ x. IsOnSchedule-headers _ _ x v) e
  on_parsed-IsOnSchedule f cfg (on_message_complete r) l l' v e =
      response_complete-IsOnSchedule f cfg r l l' v e

  on_all-IsOnSchedule :
      (f : Float) (cfg : Config) (ps : List Parsed) (l l' : Local)
      → IsOnSchedule o now l.conn
      → on_all f cfg ps l ≡ returned l'
      → IsOnSchedule o now l'.conn
  unfolding on_all
  on_all-IsOnSchedule f cfg [] l l' v e =
      subst (λ (m : Local). IsOnSchedule o now m.conn) (returned_inj e) v
  on_all-IsOnSchedule f cfg (p ∷ ps) l l' v e =
      let (m, ran, left) = bind_inv (on_parsed f cfg p l) (λ m. on_all f cfg ps m) l' e in
      on_all-IsOnSchedule f cfg ps m l' (on_parsed-IsOnSchedule f cfg p l m v ran) left

  read_error-IsOnSchedule :
      (opened : Bool) (l : Local)
      → IsOnSchedule o now l.conn
      → IsOnSchedule o now (read_error opened l).conn
  unfolding read_error
  read_error-IsOnSchedule opened l v = rw reconnect_socket-conn v

  after_parsing-IsOnSchedule :
      (opened : Bool) (x : Reading) (rest : Local → Checked Local) (m l' : Local)
      → IsOnSchedule o now m.conn
      → ((k : Local)
          → IsOnSchedule o now k.conn
          → rest k ≡ returned l'
          → IsOnSchedule o now l'.conn)
      → after_parsing opened x rest m ≡ returned l'
      → IsOnSchedule o now l'.conn
  unfolding after_parsing
  after_parsing-IsOnSchedule opened x rest m l' w next e = elim (Bool-cases (x.parsed == x.n)) [
    | inr short ↦
        subst (λ (k : Local). IsOnSchedule o now k.conn) (returned_inj (rw short at e))
          (read_error-IsOnSchedule opened m w)
    | inl parsed ↦ elim (Bool-cases ((x.n == recvbuf) && ltb 0 x.readable)) [
      | inl more ↦ next (count_bytes x.n m) w (rw (parsed, more) at e)
      | inr done ↦
          subst (λ (k : Local). IsOnSchedule o now k.conn) (returned_inj (rw (parsed, done) at e)) w
    ]
  ]

  pub socket_readable-IsOnSchedule :
      (f : Float) (cfg : Config) (opened : Bool) (xs : List Reading) (l l' : Local)
      → IsOnSchedule o now l.conn
      → socket_readable f cfg opened xs l ≡ returned l'
      → IsOnSchedule o now l'.conn
  unfolding socket_readable
  socket_readable-IsOnSchedule f cfg opened [] l l' v e = absurd (cc e)
  socket_readable-IsOnSchedule f cfg opened (x ∷ xs) l l' v e =
      by_status x.status refl (λ m w ran. socket_readable-IsOnSchedule f cfg opened xs m l' w ran)
    where
      here :
          (m : Local)
          → IsOnSchedule o now m.conn
          → returned m ≡ returned l'
          → IsOnSchedule o now l'.conn
      here m w done = subst (λ (k : Local). IsOnSchedule o now k.conn) (returned_inj done) w

      by_status :
          (s : Status)
          → x.status ≡ s
          → ((m : Local)
              → IsOnSchedule o now m.conn
              → socket_readable f cfg opened xs m ≡ returned l'
              → IsOnSchedule o now l'.conn)
          → IsOnSchedule o now l'.conn
      by_status error es rest =
          here (read_error opened l) (read_error-IsOnSchedule opened l v) (rw es at e)
      by_status retry es rest = here l v (rw es at e)
      by_status ok es rest =
          let (m, ran, left) = bind_inv (on_all f cfg x.callbacks l) _ l' (rw es at e) in
          after_parsing-IsOnSchedule opened x _ m l'
            (on_all-IsOnSchedule f cfg x.callbacks l m v ran) rest left

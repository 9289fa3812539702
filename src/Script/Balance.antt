-- ===== src/Script/Balance.antt =====
-- The functions of wrk2/src/script.c that call a script leave the stack as it was.
use weaver_dsb.Prelude.{ℕ, ◌+◌, ◌≡◌, refl, List, [], ◌∷◌, inl, inr, arith}
use weaver_dsb.Prelude.Tests.{Bool-cases}
use weaver_dsb.Prelude.Text.{codes}
use weaver_dsb.Prelude.Int.{pos, negsuc}
use weaver_dsb.Script.{Value, string, table, number, other, Lua, IsLawful}
use weaver_dsb.Script.Stack.{
  after-push, after-pop, after-new_table, after-get_global, after-get_field, after-call,
  after-call_value,
}
use weaver_dsb.Script.Calls.{
  top, function_value, script_resolve, put_arguments, script_init, request_function, script_request,
  script_is_function,
}

module _ {L : Lua} (lawful : IsLawful L) where
  pub script_request-stack : (s : L.State) → L.stack (script_request L s).1 ≡ L.stack s
  unfolding script_request request_function
  script_request-stack s =
      let own = L.get_global (codes "request") s in
      let (f, found) = after-get_global lawful {s = s} refl (codes "request") in
      elim (Bool-cases (function_value L (top L own))) [
        | inl own_function ↦
            rw own_function (after-pop lawful (after-call_value lawful found 0).1 1)
        | inr none_there ↦
            let (w, wrk) = after-get_global lawful found (codes "wrk") in
            let (g, request) = after-get_field lawful wrk (negsuc 0) (codes "request") in
            rw none_there (after-pop lawful (after-call_value lawful request 0).1 3)
      ]

  pub script_is_function-stack :
      (name : List ℕ) (s : L.State) → L.stack (script_is_function L name s).1 ≡ L.stack s
  unfolding script_is_function
  script_is_function-stack name s = after-pop lawful (after-get_global lawful {s = s} refl name).1 1

  pub script_resolve-stack :
      (host service : List ℕ) (s : L.State)
      → L.stack (script_resolve L host service s).1 ≡ L.stack s
  unfolding script_resolve
  script_resolve-stack host service s =
      let (w, wrk) = after-get_global lawful {s = s} refl (codes "wrk") in
      let (f, resolve) = after-get_field lawful wrk (negsuc 0) (codes "resolve") in
      let called =
        after-call lawful
          (after-push lawful (after-push lawful resolve (string host)) (string service)) 2 in
      after-pop lawful (after-get_field lawful called (negsuc 0) (codes "addrs")).1 2

  put_arguments-stack :
      (i : ℕ) (arguments : List (List ℕ)) (s : L.State) (t : L.Table)
      (xs : List (Value L.Number L.Table L.Other))
      → L.stack s ≡ table t ∷ xs
      → (t' : L.Table) × (L.stack (put_arguments L i arguments s) ≡ table t' ∷ xs)
  unfolding put_arguments
  put_arguments-stack i [] s t xs e = (t, e)
  put_arguments-stack i (a ∷ rest) s t xs e =
      put_arguments-stack (i + 1) rest (L.raw_seti (negsuc 1) i (L.push (string a) s))
        (L.put (number (L.of_ℤ (pos i))) (string a) t) xs
        (lawful.stack-raw_seti (negsuc 1) i _ (string a) (table t ∷ xs) t
          (after-push lawful e (string a)) (omega arith) refl)

  -- where the global `wrk` of the thread's interpreter is a table
  pub script_init-stack :
      (thread : L.Other) (arguments : List (List ℕ)) (s own : L.State) (wrk : L.Table)
      → L.stack (L.get_global (codes "wrk") own) ≡ table wrk ∷ L.stack own
      → (L.stack (script_init L thread arguments (s, own)).0 ≡ L.stack s)
        × (L.stack (script_init L thread arguments (s, own)).1 ≡ L.stack own)
  unfolding script_init
  script_init-stack thread arguments s own wrk is_table =
      let (w, main_wrk) = after-get_global lawful {s = s} refl (codes "wrk") in
      let (f, setup) = after-get_field lawful main_wrk (negsuc 0) (codes "setup") in
      let named =
        lawful.stack-set_field (negsuc 1) (codes "thread") _ (other thread)
          (table wrk ∷ L.stack own) wrk (after-push lawful is_table (other thread)) (omega arith)
          refl in
      let (g, init) = after-get_field lawful named (negsuc 0) (codes "init") in
      let (t, filled) = put_arguments-stack 0 arguments _ L.empty _ (after-new_table lawful init) in
      (
        after-pop lawful (after-call lawful (after-push lawful setup (other thread)) 1) 1,
        after-pop lawful (after-call lawful filled 1) 1,
      )

  -- The functions that call a script leave every stack that they work on as it was: script_request,
  -- script_is_function, script_resolve, and script_init on the interpreter of main and on that
  -- of the thread, where the global `wrk` of the latter is a table.
  pub calls-balance :
      (s own : L.State) (wrk : L.Table) (name host service : List ℕ) (thread : L.Other)
      (arguments : List (List ℕ))
      → L.stack (L.get_global (codes "wrk") own) ≡ table wrk ∷ L.stack own
      → (L.stack (script_request L s).1 ≡ L.stack s)
        × (L.stack (script_is_function L name s).1 ≡ L.stack s)
        × (L.stack (script_resolve L host service s).1 ≡ L.stack s)
        × (L.stack (script_init L thread arguments (s, own)).0 ≡ L.stack s)
        × (L.stack (script_init L thread arguments (s, own)).1 ≡ L.stack own)
  calls-balance s own wrk name host service thread arguments is_table = (
    script_request-stack s,
    script_is_function-stack name s,
    script_resolve-stack host service s,
    (script_init-stack thread arguments s own wrk is_table).0,
    (script_init-stack thread arguments s own wrk is_table).1,
  )

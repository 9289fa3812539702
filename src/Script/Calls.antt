-- ===== src/Script/Calls.antt =====
-- The functions of wrk2/src/script.c that set an interpreter up and call the functions of a script.
use weaver_dsb.Prelude.{ℕ, ◌+◌, Bool, false, not, Option, none, some, List, [], ◌∷◌}
use weaver_dsb.Prelude.Tests.{ltb, ◌==◌, if◌then◌else◌}
use weaver_dsb.Prelude.Lists.{get_or}
use weaver_dsb.Prelude.Text.{codes}
use weaver_dsb.Prelude.Int.{pos, negsuc}
use weaver_dsb.Script.{
  Value, nil, string, other, Lua, TableField, function_field, string_field, script_wrk_lookup,
  script_wrk_connect, set_fields,
}
use weaver_dsb.Url.{Parts, push_url_part, part_from}

-- `strchr(*h, ':')`, and the texts before it and from two characters after it on, where a space
-- follows it
unfoldable pub split_header : List ℕ → Option (List ℕ × List ℕ)
split_header [] = none
split_header (c ∷ h) =
    let rest = split_header h in if c == 58 then after_colon h else with_first c rest
  where
    after_colon : List ℕ → Option (List ℕ × List ℕ)
    after_colon [] = none
    after_colon (d ∷ v) = if d == 32 then some ([], v) else none

    with_first : ℕ → Option (List ℕ × List ℕ) → Option (List ℕ × List ℕ)
    with_first d none = none
    with_first d (some (name, v)) = some (d ∷ name, v)

module _ (L : Lua) where
  -- the value on top
  abbrev pub top : L.State → Value L.Number L.Table L.Other
  top s = get_or (L.stack s) 0 nil

  abbrev pub function_value : Value L.Number L.Table L.Other → Bool
  function_value (other f) = L.is_function f
  function_value _ = false

  abbrev pub text_of : Option (List ℕ) → List ℕ
  text_of none = []
  text_of (some text) = text

  -- one round of the loop over the headers
  abbrev pub put_header : Option (List ℕ × List ℕ) → L.State → L.State
  put_header none s = s
  put_header (some (name, value)) s =
      L.set_table (pos 5) (L.push (string value) (L.push (string name) s))

  unfoldable pub put_headers : List (List ℕ) → L.State → L.State
  put_headers [] s = s
  put_headers (h ∷ hs) s = put_headers hs (put_header (split_header h) s)

  -- the fields of `wrk` that script_create sets after the parts of the URL
  abbrev pub wrk_fields : List ℕ → List TableField
  wrk_fields path_text =
      record { name = codes "lookup"; value = some (function_field script_wrk_lookup) }
      ∷ record { name = codes "connect"; value = some (function_field script_wrk_connect) }
      ∷ record { name = codes "path"; value = some (string_field path_text) }
      ∷ []

  -- luaL_dofile, where there is a file; the message of an error is printed, and stays on the stack
  abbrev pub run_script : Option (List ℕ) → L.State → L.State
  run_script none s = s
  run_script (some file) s = (L.do_file file s).0

  unfoldable pub script_create : Option (List ℕ) → List ℕ → Parts → List (List ℕ) → L.State
  script_create file url parts headers =
      let libs =
        L.new_metatable (codes "wrk.thread")
          (L.new_metatable (codes "wrk.stats") (L.new_metatable (codes "wrk.addr") L.initial)) in
      let wrk = L.get_global (codes "wrk") libs in
      let s1 = L.set_field (pos 4) (codes "scheme") (push_url_part L url parts.schema wrk) in
      let s2 = L.set_field (pos 4) (codes "host") (push_url_part L url parts.host s1) in
      let s3 = L.set_field (pos 4) (codes "port") (push_url_part L url parts.port s2) in
      let s4 = set_fields L (pos 4) (wrk_fields (part_from url (codes "/") parts.path)) s3 in
      let s5 = put_headers headers (L.get_field (pos 4) (codes "headers") s4) in
      run_script file (L.pop 5 s5)

  unfoldable pub script_resolve : List ℕ → List ℕ → L.State → Bool × L.State
  script_resolve host_text service s =
      let called = L.call 2 0 (
        L.push (string service) (
          L.push (string host_text)
            (L.get_field (negsuc 0) (codes "resolve") (L.get_global (codes "wrk") s)))) in
      let s' = L.get_field (negsuc 0) (codes "addrs") called in
      (ltb 0 (L.objlen (top s')), L.pop 2 s')

  -- the userdata of a thread, with its metatable
  abbrev pub script_push_thread : L.Other → L.State → L.State
  script_push_thread t s = L.push (other t) s

  -- the loop over the arguments, from `i` on
  unfoldable pub put_arguments : ℕ → List (List ℕ) → L.State → L.State
  put_arguments i [] s = s
  put_arguments i (a ∷ rest) s =
      put_arguments (i + 1) rest (L.raw_seti (negsuc 1) i (L.push (string a) s))

  -- the interpreter of main and that of the thread
  unfoldable pub script_init : L.Other → List (List ℕ) → L.State × L.State → L.State × L.State
  script_init t arguments (s, own) =
      let named =
        L.set_field (negsuc 1) (codes "thread")
          (script_push_thread t (L.get_global (codes "wrk") own)) in
      let set_up = L.pop 1 (
        L.call 1 0 (
          script_push_thread t
            (L.get_field (negsuc 0) (codes "setup") (L.get_global (codes "wrk") s)))) in
      let filled =
        put_arguments 0 arguments (L.new_table (L.get_field (negsuc 0) (codes "init") named)) in
      (set_up, L.pop 1 (L.call 1 0 filled))

  -- the function `request`, of the script or of `wrk`, and the values to pop
  unfoldable pub request_function : L.State → L.State × ℕ
  request_function s =
      let own = L.get_global (codes "request") s in
      if function_value (top own)
      then (own, 1)
      else (L.get_field (negsuc 0) (codes "request") (L.get_global (codes "wrk") own), 3)

  unfoldable pub script_request : L.State → List ℕ × L.State
  script_request s =
      let (found, values) = request_function s in
      let called = L.call 0 1 found in (text_of (L.to_text (top called)), L.pop values called)

  unfoldable pub script_is_function : List ℕ → L.State → Bool × L.State
  script_is_function name s = let s' = L.get_global name s in (function_value (top s'), L.pop 1 s')

  abbrev pub script_is_static : L.State → Bool × L.State
  script_is_static s = let (found, s') = script_is_function (codes "request") s in (not found, s')

  abbrev pub script_want_response : L.State → Bool × L.State
  script_want_response s = script_is_function (codes "response") s

  abbrev pub script_has_done : L.State → Bool × L.State
  script_has_done s = script_is_function (codes "done") s

  -- luaL_pushresult of a buffer
  unfoldable script_header_done : List ℕ → L.State → L.State
  script_header_done text s = L.push (string text) s

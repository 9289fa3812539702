-- ===== src/Url.antt =====
-- The parts of a URL: script_parse_url and push_url_part of wrk2/src/script.c, and copy_url_part of
-- wrk2/src/wrk.c. http_parser_parse_url is the environment's: what it finds is an argument.
use weaver_dsb.Prelude.{ℕ, Bool, true, false, ◌&&◌, Option, none, some, List}
use weaver_dsb.Prelude.Tests.{if◌then◌else◌}
use weaver_dsb.Prelude.Lists.{take, drop}
use weaver_dsb.Script.{Lua, nil, string}

-- an entry of `field_data`
pub record Part : Type 0 where
  pub off : ℕ
  pub len : ℕ

-- `struct http_parser_url`: a part is there if its bit is set in `field_set`.
pub record Parts : Type 0 where
  pub schema : Option Part
  pub host : Option Part
  pub port : Option Part
  pub path : Option Part

abbrev pub part_text : List ℕ → Part → List ℕ
part_text url p = take p.len (drop p.off url)

abbrev is_set : Option Part → Bool
is_set none = false
is_set (some p) = true

-- The result of http_parser_parse_url is an argument; the result is 1 or 0.
unfoldable pub script_parse_url : Bool → Parts → Bool
script_parse_url failed parts = if failed then false else (is_set parts.schema && is_set parts.host)

-- `none` is NULL; zcalloc gives the terminating zero.
unfoldable pub copy_url_part : List ℕ → Option Part → Option (List ℕ)
copy_url_part url none = none
copy_url_part url (some p) = some (part_text url p)

unfoldable pub push_url_part : (L : Lua) → List ℕ → Option Part → L.State → L.State
push_url_part L url none s = L.push nil s
push_url_part L url (some p) s = L.push (string (part_text url p)) s

-- the rest of the URL from a part on, or a default
abbrev pub part_from : List ℕ → List ℕ → Option Part → List ℕ
part_from url default none = default
part_from url default (some p) = drop p.off url

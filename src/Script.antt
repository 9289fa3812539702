-- ===== src/Script.antt =====
-- wrk2/src/script.c: the Lua API as far as the program calls it, which is a parameter, and the
-- functions that build tables, set_field, set_fields and push_url_part.
pub mod Stack
pub mod Fields
pub mod Report
pub mod Balance
pub mod Verify
pub mod Transfer
pub mod Statistics
pub mod Threads
pub mod Addresses
pub mod Lookup
pub mod Calls
pub mod Responses
pub mod Pieces
pub mod RoundTrip
use weaver_dsb.Prelude.{
  ℕ, zero, suc, ◌-◌, ◌≤◌, ◌≡◌, Bool, true, false, Option, none, some, List, [], ◌∷◌, ◌++◌,
}
use weaver_dsb.Prelude.Lists.{length, get_or, set, take, drop}
use weaver_dsb.Prelude.Int.{ℤ, pos, negsuc, as_int64}

-- What a slot of the stack holds: a value of one of the types of Lua. The functions, userdata and
-- the like are `other`.
pub data Value (N T O : Type 0) : Type 0 where
  nil : Value N T O
  boolean : Bool → Value N T O
  number : N → Value N T O
  string : List ℕ → Value N T O
  table : T → Value N T O
  other : O → Value N T O

-- The C functions that the program hands to Lua.
pub data CFunction : Type 0 where
  script_wrk_lookup script_wrk_connect script_stats_percentile : CFunction
  script_thread_get script_thread_set script_thread_stop : CFunction

-- The calls of the API, on the state of one interpreter. `stack` shows its stack, the top first; an
-- index is positive from the bottom, and negative from the top. A table is shown by what is
-- stored in it.
pub record Lua : Type 1 where
  pub State : Type 0
  pub Number : Type 0
  pub Table : Type 0
  pub Other : Type 0
  pub of_ℤ : ℤ → Number
  pub c_function : CFunction → Other
  pub is_function : Other → Bool
  -- lua_tolstring, which gives NULL for a value that has no text
  pub to_text : Value Number Table Other → Option (List ℕ)
  -- lua_objlen
  pub objlen : Value Number Table Other → ℕ
  pub empty : Table
  -- t[k] = v
  pub put : Value Number Table Other → Value Number Table Other → Table → Table
  -- the entry that follows a key in a traversal of the table
  pub after :
      Table
      → Value Number Table Other
      → Option (Value Number Table Other × Value Number Table Other)
  pub stack : State → List (Value Number Table Other)
  -- lua_pushnil, lua_pushboolean, lua_pushnumber, lua_pushlstring and the like
  pub push : Value Number Table Other → State → State
  -- lua_pushvalue
  pub push_value : ℤ → State → State
  pub pop : ℕ → State → State
  pub new_table : State → State
  -- lua_settable and lua_rawset
  pub set_table : ℤ → State → State
  pub set_field : ℤ → List ℕ → State → State
  pub raw_seti : ℤ → ℕ → State → State
  pub get_field : ℤ → List ℕ → State → State
  pub get_global : List ℕ → State → State
  pub set_global : List ℕ → State → State
  -- lua_call with so many arguments and results
  pub call : ℕ → ℕ → State → State
  -- lua_next, and whether there was another entry
  pub next : ℤ → State → State × Bool
  -- a new interpreter with its libraries, and with the global `wrk` that wrk.lua makes
  pub initial : State
  -- luaL_newmetatable, with the functions registered in it
  pub new_metatable : List ℕ → State → State
  -- luaL_dofile, and whether it failed
  pub do_file : List ℕ → State → State × Bool

-- the place of an index from the top, the top being 0
abbrev pub slot : ℤ → ℕ → ℕ
slot (pos i) depth = depth - i
slot (negsuc n) depth = n

-- what the manual says of these calls
pub record IsLawful (L : Lua) : Type 0 where
  pub stack-push :
      (v : Value L.Number L.Table L.Other) (s : L.State) → L.stack (L.push v s) ≡ v ∷ L.stack s
  pub stack-push_value :
      (i : ℤ) (s : L.State)
      → L.stack (L.push_value i s)
        ≡ get_or (L.stack s) (slot i (length (L.stack s))) nil ∷ L.stack s
  pub stack-pop : (n : ℕ) (s : L.State) → L.stack (L.pop n s) ≡ drop n (L.stack s)
  pub stack-new_table : (s : L.State) → L.stack (L.new_table s) ≡ table L.empty ∷ L.stack s
  -- the value on top of its key, which are both popped
  pub stack-set_table :
      (i : ℤ) (s : L.State) (v k : Value L.Number L.Table L.Other)
      (xs : List (Value L.Number L.Table L.Other)) (t : L.Table)
      → L.stack s ≡ v ∷ k ∷ xs
      → 2 ≤ slot i (suc (suc (length xs)))
      → get_or xs (slot i (suc (suc (length xs))) - 2) nil ≡ table t
      → L.stack (L.set_table i s)
        ≡ set xs (slot i (suc (suc (length xs))) - 2) (table (L.put k v t))
  pub stack-set_field :
      (i : ℤ) (name : List ℕ) (s : L.State) (v : Value L.Number L.Table L.Other)
      (xs : List (Value L.Number L.Table L.Other)) (t : L.Table)
      → L.stack s ≡ v ∷ xs
      → 1 ≤ slot i (suc (length xs))
      → get_or xs (slot i (suc (length xs)) - 1) nil ≡ table t
      → L.stack (L.set_field i name s)
        ≡ set xs (slot i (suc (length xs)) - 1) (table (L.put (string name) v t))
  pub stack-raw_seti :
      (i : ℤ) (n : ℕ) (s : L.State) (v : Value L.Number L.Table L.Other)
      (xs : List (Value L.Number L.Table L.Other)) (t : L.Table)
      → L.stack s ≡ v ∷ xs
      → 1 ≤ slot i (suc (length xs))
      → get_or xs (slot i (suc (length xs)) - 1) nil ≡ table t
      → L.stack (L.raw_seti i n s)
        ≡ set xs (slot i (suc (length xs)) - 1) (table (L.put (number (L.of_ℤ (pos n))) v t))
  -- a field that is not there is nil
  pub stack-get_field :
      (i : ℤ) (name : List ℕ) (s : L.State)
      → (v : Value L.Number L.Table L.Other) × (L.stack (L.get_field i name s) ≡ v ∷ L.stack s)
  pub stack-get_global :
      (name : List ℕ) (s : L.State)
      → (v : Value L.Number L.Table L.Other) × (L.stack (L.get_global name s) ≡ v ∷ L.stack s)
  pub stack-call :
      (arguments results : ℕ) (s : L.State)
      → (vs : List (Value L.Number L.Table L.Other)) × (length vs ≡ results)
        × (L.stack (L.call arguments results s) ≡ vs ++ drop (suc arguments) (L.stack s))
  -- the key on top, which is popped
  pub stack-next-more :
      (i : ℤ) (s : L.State) (k k' v : Value L.Number L.Table L.Other)
      (xs : List (Value L.Number L.Table L.Other)) (t : L.Table)
      → L.stack s ≡ k ∷ xs
      → get_or (k ∷ xs) (slot i (suc (length xs))) nil ≡ table t
      → L.after t k ≡ some (k', v)
      → (L.stack (L.next i s).0 ≡ v ∷ k' ∷ xs) × ((L.next i s).1 ≡ true)
  pub stack-next-last :
      (i : ℤ) (s : L.State) (k : Value L.Number L.Table L.Other)
      (xs : List (Value L.Number L.Table L.Other)) (t : L.Table)
      → L.stack s ≡ k ∷ xs
      → get_or (k ∷ xs) (slot i (suc (length xs))) nil ≡ table t
      → L.after t k ≡ none
      → (L.stack (L.next i s).0 ≡ xs) × ((L.next i s).1 ≡ false)

-- what a `table_field` of a non-null value points to
pub data FieldData : Type 0 where
  function_field : CFunction → FieldData
  number_field : ℕ → FieldData
  string_field : List ℕ → FieldData

-- `table_field`; the value may be NULL
pub record TableField : Type 0 where
  pub name : List ℕ
  pub value : Option FieldData

module _ (L : Lua) where
  abbrev pub field_value : Option FieldData → Value L.Number L.Table L.Other
  field_value none = nil
  field_value (some (function_field f)) = other (L.c_function f)
  field_value (some (number_field n)) = number (L.of_ℤ (as_int64 n))
  field_value (some (string_field text)) = string text

  unfoldable pub set_fields : ℤ → List TableField → L.State → L.State
  set_fields index [] s = s
  set_fields index (f ∷ fs) s =
      set_fields index fs (L.set_field index f.name (L.push (field_value f.value) s))

-- ===== src/Tests/Machine.antt =====
-- A small machine in the place of Lua: its state is the stack, and its tables are lists of entries.
use weaver_dsb.Prelude.{
  ℕ, suc, ◌-◌, Bool, true, false, Option, none, some, List, [], ◌∷◌, ◌++◌, refl,
}
use weaver_dsb.Prelude.Tests.{if◌then◌else◌}
use weaver_dsb.Prelude.Lists.{length, get_or, set, drop, replicate, length-replicate}
use weaver_dsb.Prelude.Text.{codes, same_text}
use weaver_dsb.Prelude.Int.{ℤ, pos}
use weaver_dsb.Script.{Value, nil, boolean, number, string, table, other, Lua, IsLawful, slot}

mutual
  pub data Item : Type 0 where
    nil_item : Item
    boolean_item : Bool → Item
    number_item : ℤ → Item
    string_item : List ℕ → Item
    table_item : Entries → Item
    other_item : ℕ → Item

  pub data Entries : Type 0 where
    no_entry : Entries
    entry : Item → Item → Entries → Entries

abbrev pub V : Type 0
V = Value ℤ Entries ℕ

abbrev pub to_item : V → Item
to_item nil = nil_item
to_item (boolean b) = boolean_item b
to_item (number n) = number_item n
to_item (string text) = string_item text
to_item (table t) = table_item t
to_item (other n) = other_item n

abbrev pub from_item : Item → V
from_item nil_item = nil
from_item (boolean_item b) = boolean b
from_item (number_item n) = number n
from_item (string_item text) = string text
from_item (table_item t) = table t
from_item (other_item n) = other n

-- keys are texts here
abbrev pub is_key : V → Item → Bool
is_key (string a) (string_item b) = same_text a b
is_key _ _ = false

abbrev pub first_of : Entries → Option (V × V)
first_of no_entry = none
first_of (entry k v t) = some (from_item k, from_item v)

abbrev pub after_key : Entries → V → Option (V × V)
after_key no_entry k = none
after_key (entry j v t) k = let rest = after_key t k in if is_key k j then first_of t else rest

abbrev pub after_entry : Entries → V → Option (V × V)
after_entry t nil = first_of t
after_entry t k = after_key t k

abbrev pub put_entry : V → V → Entries → Entries
put_entry k v t = entry (to_item k) (to_item v) t

abbrev pub put_in : V → V → V → V
put_in k v (table t) = table (put_entry k v t)
put_in k v x = x

abbrev pub found_next : Option (V × V) → List V → List V × Bool
found_next none xs = (xs, false)
found_next (some (k, v)) xs = (v ∷ k ∷ xs, true)

abbrev pub next_in : V → V → List V → List V × Bool
next_in (table t) k xs = found_next (after_entry t k) xs
next_in _ k xs = (xs, false)

abbrev pub put_below : ℤ → List V → List V
put_below i (v ∷ k ∷ xs) =
    let n = slot i (suc (suc (length xs))) - 2 in set xs n (put_in k v (get_or xs n nil))
put_below i xs = xs

abbrev pub put_named : ℤ → V → List V → List V
put_named i k [] = []
put_named i k (v ∷ xs) =
    let n = slot i (suc (length xs)) - 1 in set xs n (put_in k v (get_or xs n nil))

abbrev pub next_at : ℤ → List V → List V × Bool
next_at i [] = ([], false)
next_at i (k ∷ xs) = next_in (get_or (k ∷ xs) (slot i (suc (length xs))) nil) k xs

abbrev text_if : V → Option (List ℕ)
text_if (string text) = some text
text_if _ = none

-- what every call of a function gives
abbrev pub reply : List ℕ
reply = codes "GET /"

abbrev pub global_of : List ℕ → V
global_of name = if same_text (codes "wrk") name then table no_entry else other 0

-- Every field is a function, and so is every global but `wrk`, which is a table.
abbrev pub machine : Lua
machine = record {
  State = List V;
  Number = ℤ;
  Table = Entries;
  Other = ℕ;
  of_ℤ = λ n. n;
  c_function = λ f. 7;
  is_function = λ n. true;
  to_text = text_if;
  objlen = λ v. 1;
  empty = no_entry;
  put = put_entry;
  after = after_entry;
  stack = λ s. s;
  push = λ v s. v ∷ s;
  push_value = λ i s. get_or s (slot i (length s)) nil ∷ s;
  pop = λ n s. drop n s;
  new_table = λ s. table no_entry ∷ s;
  set_table = put_below;
  set_field = λ i name s. put_named i (string name) s;
  raw_seti = λ i n s. put_named i (number (pos n)) s;
  get_field = λ i name s. other 0 ∷ s;
  get_global = λ name s. global_of name ∷ s;
  set_global = λ name s. drop 1 s;
  call = λ n m s. replicate m (string reply) ++ drop (suc n) s;
  next = next_at;
  initial = [];
  new_metatable = λ name s. table no_entry ∷ s;
  do_file = λ file s. (s, false);
}

pub machine-IsLawful : IsLawful machine
machine-IsLawful = record {
  stack-push = λ v s. refl;
  stack-push_value = λ i s. refl;
  stack-pop = λ n s. refl;
  stack-new_table = λ s. refl;
  stack-set_table = λ i s v k xs t e low at. rw (e, at) refl;
  stack-set_field = λ i name s v xs t e low at. rw (e, at) refl;
  stack-raw_seti = λ i n s v xs t e low at. rw (e, at) refl;
  stack-get_field = λ i name s. (other 0, refl);
  stack-get_global = λ name s. (global_of name, refl);
  stack-call = λ n m s. (replicate m (string reply), length-replicate m (string reply), refl);
  stack-next-more = λ i s k k' v xs t e at there. rw (e, at, there) (refl, refl);
  stack-next-last = λ i s k xs t e at none_left. rw (e, at, none_left) (refl, refl);
}

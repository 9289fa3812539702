-- ===== src/Script/Transfer.antt =====
-- script_copy_value of wrk2/src/script.c, which copies a value from one interpreter to another,
-- with script_thread_get and script_thread_set.
use weaver_dsb.Prelude.{ℕ, zero, suc, ◌<◌, ◌≡◌, refl, ap, Bool, none, some, List, [], ◌∷◌, arith}
use weaver_dsb.Prelude.Tests.{◌==◌, if◌then◌else◌}
use weaver_dsb.Prelude.Lists.{length, get_or, drop}
use weaver_dsb.Prelude.Int.{negsuc}
use weaver_dsb.Prelude.Checked.{Checked, returned, aborted, out_of_fuel, ◌>>=◌}
use weaver_dsb.Script.{Value, nil, boolean, number, string, table, other, Lua, IsLawful}
use weaver_dsb.Script.Stack.{after-push, after-new_table, after-pop}

-- a C string ends at its first zero
abbrev pub c_string : List ℕ → List ℕ
c_string [] = []
c_string (c ∷ cs) = let rest = c_string cs in if c == 0 then [] else c ∷ rest

module _ (L : Lua) where
  -- The interpreters, from which and to which a value is copied.
  abbrev pub Both : Type 0
  Both = L.State × L.State

  -- The traversal of a table, at the index -(n + 1) before its key is pushed, on fuel.
  unfoldable pub copy_entries : (ℕ → Both → Checked Both) → ℕ → ℕ → Both → Checked Both
  copy_entries copy zero n both = out_of_fuel
  copy_entries copy (suc fuel) n (src, dst) =
      let (found, more) = L.next (negsuc (suc n)) src in
      if more
      then (do
        one ← copy 0 (found, dst)
        two ← copy 1 one
        copy_entries copy fuel n (L.pop 1 two.0, L.set_table (negsuc 2) two.1))
      else returned (L.pop 1 found, dst)

  -- the cases of the switch; luaL_error does not come back
  unfoldable pub copy_case :
      (ℕ → Both → Checked Both) → ℕ → ℕ → Value L.Number L.Table L.Other → Both → Checked Both
  copy_case copy fuel n nil (src, dst) = returned (src, L.push nil dst)
  copy_case copy fuel n (boolean b) (src, dst) = returned (src, L.push (boolean b) dst)
  copy_case copy fuel n (number x) (src, dst) = returned (src, L.push (number x) dst)
  copy_case copy fuel n (string text) (src, dst) =
      returned (src, L.push (string (c_string text)) dst)
  copy_case copy fuel n (table t) (src, dst) =
      copy_entries copy fuel n (L.push nil src, L.new_table dst)
  copy_case copy fuel n (other o) both = aborted

  -- the value at the index -(n + 1)
  unfoldable pub script_copy_value : ℕ → ℕ → Both → Checked Both
  script_copy_value zero n both = out_of_fuel
  script_copy_value (suc fuel) n both =
      copy_case (script_copy_value fuel) fuel n (get_or (L.stack both.0) n nil) both

  -- `thread:get(key)`, on the interpreter that asks, and that of the thread
  unfoldable script_thread_get : ℕ → List ℕ → Both → Checked Both
  script_thread_get fuel key (s, own) = do
    copied ← script_copy_value fuel 0 (L.get_global key own, s)
    returned (copied.1, L.pop 1 copied.0)

  unfoldable script_thread_set : ℕ → List ℕ → Both → Checked Both
  script_thread_set fuel name (s, own) = do
    copied ← script_copy_value fuel 0 (s, own)
    returned (copied.0, L.set_global name copied.1)

-- the values that hold no others
pub data IsScalar (N T O : Type 0) : Value N T O → Type 0 where
  nil_scalar : IsScalar N T O nil
  boolean_scalar : {b : Bool} → IsScalar N T O (boolean b)
  number_scalar : {x : N} → IsScalar N T O (number x)
  string_scalar : {text : List ℕ} → IsScalar N T O (string text)

abbrev pub copied : {N T O : Type 0} → Value N T O → Value N T O
copied (string text) = string (c_string text)
copied nil = nil
copied (boolean b) = boolean b
copied (number x) = number x
copied (table t) = table t
copied (other o) = other o

-- what a traversal of a table meets after a key
abbrev pub Traverses :
    (L : Lua)
    → L.Table
    → Value L.Number L.Table L.Other
    → List (Value L.Number L.Table L.Other × Value L.Number L.Table L.Other)
    → Type 0
Traverses L t k [] = L.after t k ≡ none
Traverses L t k ((k', v) ∷ es) =
    (L.after t k ≡ some (k', v))
    × IsScalar L.Number L.Table L.Other k'
    × IsScalar L.Number L.Table L.Other v
    × Traverses L t k' es

-- the table of the copies, each value as a key, with its key as the value
abbrev pub put_swapped :
    (L : Lua)
    → List (Value L.Number L.Table L.Other × Value L.Number L.Table L.Other)
    → L.Table
    → L.Table
put_swapped L [] u = u
put_swapped L ((k, v) ∷ es) u = put_swapped L es (L.put (copied v) (copied k) u)

copy_case-scalar :
    (L : Lua) (copy : ℕ → Both L → Checked (Both L)) (fuel n : ℕ) (src dst : L.State)
    (v : Value L.Number L.Table L.Other)
    → IsScalar L.Number L.Table L.Other v
    → copy_case L copy fuel n v (src, dst) ≡ returned (src, L.push (copied v) dst)
unfolding copy_case
copy_case-scalar L copy fuel n src dst nil nil_scalar = refl
copy_case-scalar L copy fuel n src dst (boolean b) boolean_scalar = refl
copy_case-scalar L copy fuel n src dst (number x) number_scalar = refl
copy_case-scalar L copy fuel n src dst (string text) string_scalar = refl
copy_case-scalar L copy fuel n src dst (table t) is = elim is [ ]
copy_case-scalar L copy fuel n src dst (other o) is = elim is [ ]

copy-scalar :
    (L : Lua) (fuel n : ℕ) (src dst : L.State) (v : Value L.Number L.Table L.Other)
    → get_or (L.stack src) n nil ≡ v
    → IsScalar L.Number L.Table L.Other v
    → script_copy_value L (suc fuel) n (src, dst) ≡ returned (src, L.push (copied v) dst)
unfolding script_copy_value
copy-scalar L fuel n src dst v e is =
    rw e (copy_case-scalar L (script_copy_value L fuel) fuel n src dst v is)

module _ {L : Lua} (lawful : IsLawful L) where
  copy_entries_lem :
      (inner fuel n : ℕ) (k : Value L.Number L.Table L.Other)
      (es : List (Value L.Number L.Table L.Other × Value L.Number L.Table L.Other))
      (xs ys : List (Value L.Number L.Table L.Other)) (t u : L.Table) (src dst : L.State)
      → length es < fuel
      → Traverses L t k es
      → L.stack src ≡ k ∷ xs
      → get_or xs n nil ≡ table t
      → L.stack dst ≡ table u ∷ ys
      → (r : Both L) × (copy_entries L (script_copy_value L (suc inner)) fuel n (src, dst)
          ≡ returned r)
        × (L.stack r.0 ≡ drop 1 xs)
        × (L.stack r.1 ≡ table (put_swapped L es u) ∷ ys)
  unfolding copy_entries
  copy_entries_lem inner zero n k es xs ys t u src dst enough tr e at d = absurd (omega arith)
  copy_entries_lem inner (suc fuel) n k [] xs ys t u src dst enough tr e at d =
      let (left, more) = lawful.stack-next-last (negsuc (suc n)) src k xs t e at tr in
      ((L.pop 1 (L.next (negsuc (suc n)) src).0, dst), rw more refl, after-pop lawful left 1, d)
  copy_entries_lem inner (suc fuel) n k ((k', v) ∷ es) xs ys t u src dst enough (there, ks, vs, tr)
        e at d =
      let found = (L.next (negsuc (suc n)) src).0 in
      let (shown, more) = lawful.stack-next-more (negsuc (suc n)) src k k' v xs t e at there in
      let one = copy-scalar L inner 0 found dst v (ap (λ zs. get_or zs 0 nil) shown) vs in
      let two =
        copy-scalar L inner 1 found (L.push (copied v) dst) k' (ap (λ zs. get_or zs 1 nil) shown)
          ks in
      let put =
        lawful.stack-set_table (negsuc 2) (L.push (copied k') (L.push (copied v) dst)) (copied k')
          (copied v) (table u ∷ ys) u
          (after-push lawful (after-push lawful d (copied v)) (copied k')) (omega arith) refl in
      let (r, ran, src_stack, dst_stack) =
        copy_entries_lem inner fuel n k' es xs ys t (L.put (copied v) (copied k') u) (L.pop 1 found)
          (L.set_table (negsuc 2) (L.push (copied k') (L.push (copied v) dst)))
          (omega (arith, enough)) tr (after-pop lawful shown 1) at put in
      (r, rw (more, one, two) ran, src_stack, dst_stack)

  -- script_copy_value, on enough fuel, of a table that holds no tables, functions or userdata, at
  -- any index from the top: it returns, and pushes a table in which each value of the source is a
  -- key, with its key as the value, both copied with a string cut at its first zero; and it takes
  -- the top of the source's stack away.
  pub script_copy_value-table :
      (fuel n : ℕ) (t : L.Table)
      (es : List (Value L.Number L.Table L.Other × Value L.Number L.Table L.Other))
      (src dst : L.State)
      → get_or (L.stack src) n nil ≡ table t
      → Traverses L t nil es
      → length es < fuel
      → (r : Both L) × (script_copy_value L (suc fuel) n (src, dst) ≡ returned r)
        × (L.stack r.0 ≡ drop 1 (L.stack src))
        × (L.stack r.1 ≡ table (put_swapped L es L.empty) ∷ L.stack dst)
  unfolding script_copy_value copy_case
  script_copy_value-table zero n t es src dst at tr enough = absurd (omega arith)
  script_copy_value-table (suc inner) n t es src dst at tr enough =
      let (r, ran, src_stack, dst_stack) =
        copy_entries_lem inner (suc inner) n nil es (L.stack src) (L.stack dst) t L.empty
          (L.push nil src) (L.new_table dst) enough tr (after-push lawful {s = src} refl nil) at
          (after-new_table lawful {s = dst} refl) in
      (r, rw at ran, src_stack, dst_stack)

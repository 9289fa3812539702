-- ===== src/Script/Fields.antt =====
-- set_fields of wrk2/src/script.c stores every field in the table, in their order.
use weaver_dsb.Prelude.{
  ℕ, zero, suc, ◌+◌, ◌-◌, ◌≤◌, ◌<◌, ◌≡◌, refl, sym, ap, ◌∙◌, List, [], ◌∷◌, arith,
}
use weaver_dsb.Prelude.Lists.{length, get_or, set, length-set, get_or-set_self}
use weaver_dsb.Prelude.Int.{pos}
use weaver_dsb.Script.{
  Value, nil, string, table, Lua, IsLawful, TableField, field_value, set_fields,
}

set_twice {ℓ} : {A : Type ℓ} (xs : List A) (i : ℕ) (u v : A) → set (set xs i u) i v ≡ set xs i v
set_twice [] i u v = refl
set_twice (x ∷ xs) zero u v = refl
set_twice (x ∷ xs) (suc i) u v = ap (λ t. x ∷ t) (set_twice xs i u v)

set_same {ℓ} :
    {A : Type ℓ} (xs : List A) (i : ℕ) (d v : A)
    → i < length xs
    → get_or xs i d ≡ v
    → set xs i v ≡ xs
set_same [] i d v h e = absurd (omega arith)
set_same (x ∷ xs) zero d v h e = ap (λ t. t ∷ xs) (sym e)
set_same (x ∷ xs) (suc i) d v h e = ap (λ t. x ∷ t) (set_same xs i d v (omega arith) e)

module _ {L : Lua} (lawful : IsLawful L) where
  -- lua_setfield at an index from the bottom, which is `n` from the top once the value is popped
  pub set_field-at :
      (i n : ℕ) (name : List ℕ) (s : L.State) (v : Value L.Number L.Table L.Other)
      (xs : List (Value L.Number L.Table L.Other)) (t : L.Table)
      → L.stack s ≡ v ∷ xs
      → 1 ≤ i
      → n + i ≡ length xs
      → get_or xs n nil ≡ table t
      → L.stack (L.set_field (pos i) name s) ≡ set xs n (table (L.put (string name) v t))
  set_field-at i n name s v xs t e one at is_table =
      let place : suc (length xs) - i - 1 ≡ n = omega (arith, at) in
      lawful.stack-set_field (pos i) name s v xs t e (omega (arith, at, one))
        (ap (λ (k : ℕ). get_or xs k nil) place ∙ is_table)
      ∙ ap (λ (k : ℕ). set xs k (table (L.put (string name) v t))) place

  abbrev pub put_fields : List TableField → L.Table → L.Table
  put_fields [] t = t
  put_fields (f ∷ fs) t = put_fields fs (L.put (string f.name) (field_value L f.value) t)

  pub set_fields_lem :
      (i n : ℕ) (fs : List TableField) (s : L.State) (xs : List (Value L.Number L.Table L.Other))
      (t : L.Table)
      → L.stack s ≡ xs
      → 1 ≤ i
      → n + i ≡ length xs
      → get_or xs n nil ≡ table t
      → L.stack (set_fields L (pos i) fs s) ≡ set xs n (table (put_fields fs t))
  unfolding set_fields
  set_fields_lem i n [] s xs t e one at is_table =
      e ∙ sym (set_same xs n nil (table t) (omega (arith, at, one)) is_table)
  set_fields_lem i n (f ∷ fs) s xs t e one at is_table =
      let v = field_value L f.value in
      set_fields_lem i n fs (L.set_field (pos i) f.name (L.push v s))
        (set xs n (table (L.put (string f.name) v t))) (L.put (string f.name) v t)
        (set_field-at i n f.name (L.push v s) v xs t (lawful.stack-push v s ∙ ap (λ ys. v ∷ ys) e)
          one at is_table)
        one (omega (arith, at, length-set xs n (table (L.put (string f.name) v t))))
        (get_or-set_self xs n (table (L.put (string f.name) v t)) nil (omega (arith, at, one)))
      ∙ set_twice xs n (table (L.put (string f.name) v t))
          (table (put_fields fs (L.put (string f.name) v t)))

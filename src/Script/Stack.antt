-- ===== src/Script/Stack.antt =====
-- What each call of the Lua API leaves on a stack that is known.
use weaver_dsb.Prelude.{ℕ, suc, ◌≡◌, refl, ap, ◌∙◌, List, [], ◌∷◌, ◌++◌, arith}
use weaver_dsb.Prelude.Lists.{length, get_or, drop}
use weaver_dsb.Prelude.Int.{ℤ}
use weaver_dsb.Script.{Value, nil, table, Lua, IsLawful, slot}

none_of {ℓ} : {A : Type ℓ} (xs : List A) → length xs ≡ 0 → xs ≡ []
none_of [] e = refl
none_of (x ∷ xs) e = absurd (omega arith)

one_of {ℓ} : {A : Type ℓ} (xs : List A) → length xs ≡ 1 → (x : A) × (xs ≡ x ∷ [])
one_of [] e = absurd (omega arith)
one_of (x ∷ xs) e = (x, ap (λ ys. x ∷ ys) (none_of xs (omega (arith, e))))

module _ {L : Lua} (lawful : IsLawful L) {s : L.State} {xs : List (Value L.Number L.Table L.Other)}
    (e : L.stack s ≡ xs) where
  pub after-push : (v : Value L.Number L.Table L.Other) → L.stack (L.push v s) ≡ v ∷ xs
  after-push v = lawful.stack-push v s ∙ ap (λ ys. v ∷ ys) e

  pub after-push_value :
      (i : ℤ) → L.stack (L.push_value i s) ≡ get_or xs (slot i (length xs)) nil ∷ xs
  after-push_value i =
      lawful.stack-push_value i s ∙ ap (λ ys. get_or ys (slot i (length ys)) nil ∷ ys) e

  pub after-pop : (n : ℕ) → L.stack (L.pop n s) ≡ drop n xs
  after-pop n = lawful.stack-pop n s ∙ ap (drop n) e

  pub after-new_table : L.stack (L.new_table s) ≡ table L.empty ∷ xs
  after-new_table = lawful.stack-new_table s ∙ ap (λ ys. table L.empty ∷ ys) e

  pub after-get_global :
      (name : List ℕ)
      → (v : Value L.Number L.Table L.Other) × (L.stack (L.get_global name s) ≡ v ∷ xs)
  after-get_global name =
      let (v, found) = lawful.stack-get_global name s in (v, found ∙ ap (λ ys. v ∷ ys) e)

  pub after-get_field :
      (i : ℤ) (name : List ℕ)
      → (v : Value L.Number L.Table L.Other) × (L.stack (L.get_field i name s) ≡ v ∷ xs)
  after-get_field i name =
      let (v, found) = lawful.stack-get_field i name s in (v, found ∙ ap (λ ys. v ∷ ys) e)

  -- a call for its effect
  pub after-call : (n : ℕ) → L.stack (L.call n 0 s) ≡ drop (suc n) xs
  after-call n =
      let (vs, none_left, called) = lawful.stack-call n 0 s in
      called
      ∙ ap (λ ys. ys ++ drop (suc n) (L.stack s)) (none_of vs none_left)
      ∙ ap (drop (suc n)) e

  -- a call for its result
  pub after-call_value :
      (n : ℕ)
      → (v : Value L.Number L.Table L.Other) × (L.stack (L.call n 1 s) ≡ v ∷ drop (suc n) xs)
  after-call_value n =
      let (vs, one_left, called) = lawful.stack-call n 1 s in
      let (v, is) = one_of vs one_left in
      (v, called ∙ ap (λ ys. ys ++ drop (suc n) (L.stack s)) is ∙ ap (λ ys. v ∷ drop (suc n) ys) e)

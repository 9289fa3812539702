-- ===== src/Prelude/Lists.antt =====
-- C arrays as lists measured and indexed by native numbers, and the sum of an array of counters.
use Prim.Native.Nat.{ℕ, zero, suc, ◌+◌, ◌≤◌, ◌<◌}
use mathlib.Core.Path.{◌≡◌, refl, ap}
use mathlib.Core.Logic.{◌≢◌}
use mathlib.Core.List.{List, [], ◌∷◌, ◌++◌}
use native.Mathlib.Omega.{arith}

module _ {ℓ} {A : Type ℓ} where
  abbrev pub length : List A → ℕ
  length [] = 0
  length (x ∷ xs) = suc (length xs)

  abbrev pub get_or : List A → ℕ → A → A
  get_or [] i d = d
  get_or (x ∷ xs) zero d = x
  get_or (x ∷ xs) (suc i) d = get_or xs i d

  abbrev pub set : List A → ℕ → A → List A
  set [] i v = []
  set (x ∷ xs) zero v = v ∷ xs
  set (x ∷ xs) (suc i) v = x ∷ set xs i v

  abbrev pub take : ℕ → List A → List A
  take zero xs = []
  take (suc n) [] = []
  take (suc n) (x ∷ xs) = x ∷ take n xs

  abbrev pub drop : ℕ → List A → List A
  drop zero xs = xs
  drop (suc n) [] = []
  drop (suc n) (x ∷ xs) = drop n xs

  abbrev pub replicate : ℕ → A → List A
  replicate zero a = []
  replicate (suc n) a = a ∷ replicate n a

  pub length-set : (xs : List A) (i : ℕ) (v : A) → length (set xs i v) ≡ length xs
  length-set [] i v = refl
  length-set (x ∷ xs) zero v = refl
  length-set (x ∷ xs) (suc i) v = ap suc (length-set xs i v)

  pub length-replicate : (n : ℕ) (a : A) → length (replicate n a) ≡ n
  length-replicate zero a = refl
  length-replicate (suc n) a = ap suc (length-replicate n a)

  pub length-append : (xs ys : List A) → length (xs ++ ys) ≡ length xs + length ys
  length-append [] ys = omega arith
  length-append (x ∷ xs) ys = omega (arith, length-append xs ys)

  pub get_or-set_self :
      (xs : List A) (i : ℕ) (v d : A) → i < length xs → get_or (set xs i v) i d ≡ v
  get_or-set_self [] i v d h = absurd (omega arith)
  get_or-set_self (x ∷ xs) zero v d h = refl
  get_or-set_self (x ∷ xs) (suc i) v d h = get_or-set_self xs i v d (omega arith)

  pub get_or-set_ne :
      (xs : List A) (i j : ℕ) (v d : A) → i ≢ j → get_or (set xs i v) j d ≡ get_or xs j d
  get_or-set_ne [] i j v d h = refl
  get_or-set_ne (x ∷ xs) zero zero v d h = absurd (h refl)
  get_or-set_ne (x ∷ xs) zero (suc j) v d h = refl
  get_or-set_ne (x ∷ xs) (suc i) zero v d h = refl
  get_or-set_ne (x ∷ xs) (suc i) (suc j) v d h = get_or-set_ne xs i j v d (λ e. h (ap suc e))

abbrev pub sum : List ℕ → ℕ
sum [] = 0
sum (x ∷ xs) = x + sum xs

pub sum-take-suc : (xs : List ℕ) (i : ℕ) → sum (take (suc i) xs) ≡ sum (take i xs) + get_or xs i 0
sum-take-suc [] zero = omega arith
sum-take-suc [] (suc i) = omega arith
sum-take-suc (x ∷ xs) zero = omega arith
sum-take-suc (x ∷ xs) (suc i) = omega (arith, sum-take-suc xs i)

pub sum-take-le : (xs : List ℕ) (i : ℕ) → sum (take i xs) ≤ sum xs
sum-take-le xs zero = omega arith
sum-take-le [] (suc i) = omega arith
sum-take-le (x ∷ xs) (suc i) = omega (arith, sum-take-le xs i)

pub sum-take-all : (xs : List ℕ) (i : ℕ) → length xs ≤ i → sum (take i xs) ≡ sum xs
sum-take-all [] zero h = refl
sum-take-all [] (suc i) h = refl
sum-take-all (x ∷ xs) zero h = absurd (omega arith)
sum-take-all (x ∷ xs) (suc i) h = omega (arith, sum-take-all xs i)

pub sum-take_mono : (xs : List ℕ) (i j : ℕ) → i ≤ j → sum (take i xs) ≤ sum (take j xs)
sum-take_mono xs zero j h = omega arith
sum-take_mono xs (suc i) zero h = absurd (omega arith)
sum-take_mono [] (suc i) (suc j) h = omega arith
sum-take_mono (x ∷ xs) (suc i) (suc j) h = omega (arith, sum-take_mono xs i j (omega arith))

-- Adding to one entry adds to the sum.
pub sum-set :
    (xs : List ℕ) (i n : ℕ) → i < length xs → sum (set xs i (get_or xs i 0 + n)) ≡ sum xs + n
sum-set [] i n h = absurd (omega arith)
sum-set (x ∷ xs) zero n h = omega arith
sum-set (x ∷ xs) (suc i) n h = omega (arith, sum-set xs i n)

pub sum-replicate : (n : ℕ) → sum (replicate n 0) ≡ 0
sum-replicate zero = refl
sum-replicate (suc n) = omega (arith, sum-replicate n)

-- The entries of a prefix.
pub get_or-take_at : (xs : List ℕ) (n : ℕ) → ◌≡◌ {A = ℕ} (get_or (take n xs) n 0) 0
get_or-take_at xs zero = refl
get_or-take_at [] (suc n) = refl
get_or-take_at (x ∷ xs) (suc n) = get_or-take_at xs n

pub get_or-take-suc_self : (xs : List ℕ) (n : ℕ) → get_or (take (suc n) xs) n 0 ≡ get_or xs n 0
get_or-take-suc_self [] n = refl
get_or-take-suc_self (x ∷ xs) zero = refl
get_or-take-suc_self (x ∷ xs) (suc n) = get_or-take-suc_self xs n

pub get_or-take-suc_ne :
    (xs : List ℕ) (n k : ℕ) → n ≢ k → get_or (take (suc n) xs) k 0 ≡ get_or (take n xs) k 0
get_or-take-suc_ne [] zero k ne = refl
get_or-take-suc_ne [] (suc n) k ne = refl
get_or-take-suc_ne (x ∷ xs) zero zero ne = absurd (ne refl)
get_or-take-suc_ne (x ∷ xs) zero (suc k) ne = refl
get_or-take-suc_ne (x ∷ xs) (suc n) zero ne = refl
get_or-take-suc_ne (x ∷ xs) (suc n) (suc k) ne = get_or-take-suc_ne xs n k (λ e. ne (ap suc e))

-- A zero adds nothing to a prefix.
pub get_or-take-suc_zero :
    (xs : List ℕ) (n k : ℕ)
    → get_or xs n 0 ≡ 0
    → get_or (take (suc n) xs) k 0 ≡ get_or (take n xs) k 0
get_or-take-suc_zero [] zero k z = refl
get_or-take-suc_zero [] (suc n) k z = refl
get_or-take-suc_zero (x ∷ xs) zero zero z = z
get_or-take-suc_zero (x ∷ xs) zero (suc k) z = refl
get_or-take-suc_zero (x ∷ xs) (suc n) zero z = refl
get_or-take-suc_zero (x ∷ xs) (suc n) (suc k) z = get_or-take-suc_zero xs n k z

pub take-all {ℓ} : {A : Type ℓ} (xs : List A) (n : ℕ) → length xs ≤ n → take n xs ≡ xs
take-all [] zero h = refl
take-all [] (suc n) h = refl
take-all (x ∷ xs) zero h = absurd (omega arith)
take-all (x ∷ xs) (suc n) h = ap (λ t. x ∷ t) (take-all xs n (omega arith))

-- If a prefix has the whole sum, the rest holds nothing.
pub get_or-take_rest :
    (xs : List ℕ) (n k : ℕ) → sum xs ≤ sum (take n xs) → get_or (take n xs) k 0 ≡ get_or xs k 0
get_or-take_rest [] zero k h = refl
get_or-take_rest [] (suc n) k h = refl
get_or-take_rest (x ∷ xs) zero zero h = omega arith
get_or-take_rest (x ∷ xs) zero (suc k) h = get_or-take_rest xs zero k (omega arith)
get_or-take_rest (x ∷ xs) (suc n) zero h = refl
get_or-take_rest (x ∷ xs) (suc n) (suc k) h = get_or-take_rest xs n k (omega arith)

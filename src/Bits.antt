-- ===== src/Bits.antt =====
-- Powers of two, the number of binary digits of a word, and what `|` does to it. The bit tricks of
-- hdr_histogram.c (`__builtin_clzll(value | mask)`) are read through these.
use Prim.Native.Nat.{digits, bit_or-bitwise}
use native.Mathlib.Nat.{pow-suc, zero-add}
use weaver_dsb.Prelude.{
  ℕ, zero, suc, ◌+◌, ◌-◌, ◌*◌, ◌/◌, ◌%◌, ◌^◌, ◌≤◌, ◌<◌, max, bit_or, ◌≡◌, refl, sym, ap, ◌∙◌, arith,
}
use weaver_dsb.Prelude.Tests.{◌==◌, if◌then◌else◌}

pub mul-le_mul_right : (x y k : ℕ) → x ≤ y → x * k ≤ y * k
mul-le_mul_right x y k h = grind arith

pub mul-le_mul_left : (k x y : ℕ) → x ≤ y → k * x ≤ k * y
mul-le_mul_left k x y h = grind arith

pub mul-suc-le : (x y k : ℕ) → x < y → x * k + k ≤ y * k
mul-suc-le x y k h = omega (arith, mul-le_mul_right (x + 1) y k (omega arith))

pub pow2-suc : (k : ℕ) → 2 ^ suc k ≡ 2 * 2 ^ k
pow2-suc k = omega (arith, pow-suc 2 k)

pub mul-pow2-suc : (t k : ℕ) → t * 2 ^ suc k ≡ t * 2 * 2 ^ k
mul-pow2-suc t k = omega (arith, ap (λ (x : ℕ). t * x) (pow2-suc k))

pub pow2-pos : (k : ℕ) → 1 ≤ 2 ^ k
pow2-pos zero = omega arith
pow2-pos (suc k) = omega (arith, pow2-suc k, pow2-pos k)

pub pow2-add : (a b : ℕ) → 2 ^ (a + b) ≡ 2 ^ a * 2 ^ b
pow2-add zero b = rw zero-add (omega arith)
pow2-add (suc a) b = omega (
  arith,
  ap (λ (t : ℕ). 2 ^ t) (suc-add a b),
  pow2-suc (a + b),
  ap (λ (t : ℕ). t * 2 ^ b) (pow2-suc a),
  pow2-add a b,
)
  where
    suc-add : (m n : ℕ) → suc m + n ≡ suc (m + n)
    suc-add m n = omega arith

pub pow2_mono : (a b : ℕ) → a ≤ b → 2 ^ a ≤ 2 ^ b
pow2_mono a b h =
    let e : b ≡ a + (b - a) = omega arith in
    let one : 1 ≤ 2 ^ (b - a) = pow2-pos (b - a) in rw (e, pow2-add) (grind arith)

-- the digits of `x`, if it has at most as many as the first argument
unfoldable pub bit_length : ℕ → ℕ → ℕ
bit_length zero x = 0
bit_length (suc f) x = if x == 0 then 0 else (1 + bit_length f (x / 2))

-- The library's `bit_or` by digits, the first argument being fuel.
abbrev or_digits : ℕ → ℕ → ℕ → ℕ
or_digits fuel x y = digits (λ rest. rest) max fuel x y

spent : (fuel y : ℕ) → or_digits fuel 0 y ≡ y
spent zero y = refl
spent (suc fuel) y = refl

enough_fuel : (x k l y : ℕ) → x ≤ k → x ≤ l → or_digits k x y ≡ or_digits l x y
enough_fuel zero k l y _ _ = spent k y ∙ sym (spent l y)
enough_fuel (suc x) zero l y less _ = absurd (omega arith)
enough_fuel (suc x) (suc k) zero y _ less = absurd (omega arith)
enough_fuel (suc x) (suc k) (suc l) y p q =
    let upper = enough_fuel (suc x / 2) k l (y / 2) (omega arith) (omega arith) in
    omega (arith, upper)

bit_or_digit : (a b : ℕ) → bit_or a b ≡ bit_or (a / 2) (b / 2) * 2 + max (a % 2) (b % 2)
bit_or_digit zero b = omega (arith, bit_or-bitwise 0 b, bit_or-bitwise 0 (b / 2))
bit_or_digit (suc a) b = omega (
  arith,
  bit_or-bitwise (suc a) b,
  bit_or-bitwise (suc a / 2) (b / 2),
  enough_fuel (suc a / 2) a (suc a / 2) (b / 2) (omega arith) (omega arith),
)

bit_or-half : (a b : ℕ) → bit_or a b / 2 ≡ bit_or (a / 2) (b / 2)
bit_or-half a b = omega (arith, bit_or_digit a b)

bit_or_top : (a b : ℕ) → bit_or a b % 2 ≡ max (a % 2) (b % 2)
bit_or_top a b = omega (arith, bit_or_digit a b)

bit_length-zero : (f : ℕ) → bit_length f 0 ≡ 0
unfolding bit_length
bit_length-zero zero = refl
bit_length-zero (suc f) = refl

bit_or-eq-zero : (f a b : ℕ) → a < 2 ^ f → bit_or a b ≡ 0 → (a ≡ 0) × (b ≡ 0)
bit_or-eq-zero zero zero b p e = (refl, omega (arith, e, bit_or-bitwise 0 b))
bit_or-eq-zero zero (suc a) b p e = absurd (omega arith)
bit_or-eq-zero (suc f) a b p e =
    let half : bit_or (a / 2) (b / 2) ≡ 0 = omega (arith, bit_or-half a b) in
    omega (
      arith,
      bit_or_digit a b,
      pow2-suc f,
      bit_or-eq-zero f (a / 2) (b / 2) (omega (arith, pow2-suc f)) half,
    )

-- `a | b` has as many digits as the longer of the two.
pub bit_length-bit_or :
    (f a b : ℕ)
    → a < 2 ^ f
    → b < 2 ^ f
    → bit_length f (bit_or a b) ≡ max (bit_length f a) (bit_length f b)
unfolding bit_length
bit_length-bit_or zero a b p q = omega arith
bit_length-bit_or (suc f) a b p q = ground (
  arith,
  bit_or-half a b,
  bit_or-eq-zero (suc f) a b p,
  ap (bit_length f) (bit_or-half a b),
  bit_or_digit a b,
  bit_length-zero f,
  bit_length-bit_or f (a / 2) (b / 2) (omega (arith, pow2-suc f)) (omega (arith, pow2-suc f)),
)

bit_length-suc : (f a : ℕ) → bit_length (suc f) (suc a) ≡ suc (bit_length f (suc a / 2))
unfolding bit_length
bit_length-suc f a = ground arith

pub bit_length-le : (f a p : ℕ) → a < 2 ^ p → bit_length f a ≤ p
unfolding bit_length
bit_length-le zero a p h = omega arith
bit_length-le (suc f) a zero h = ground arith
bit_length-le (suc f) a (suc p) h =
    ground (arith, bit_length-le f (a / 2) p (omega (arith, pow2-suc p)))

-- `p + 1` digits, exactly when the value lies between `2 ^ p` and `2 ^ (p + 1)`
pub bit_length-eq : (f a p : ℕ) → 2 ^ p ≤ a → a < 2 ^ suc p → p < f → bit_length f a ≡ suc p
unfolding bit_length
bit_length-eq zero a p lo hi h = absurd (omega arith)
bit_length-eq (suc f) a zero lo hi h =
    let one : a ≡ 1 = omega (arith, pow2-suc 0) in rw one (omega (arith, bit_length-zero f))
bit_length-eq (suc f) a (suc p) lo hi h = ground (
  arith,
  pow2-suc p,
  pow2-suc (suc p),
  bit_length-eq f (a / 2) p (omega (arith, pow2-suc p)) (omega (arith, pow2-suc (suc p)))
      (omega arith),
)

bit_length-none : (a : ℕ) → bit_length zero a ≡ 0
unfolding bit_length
bit_length-none a = refl

pub lt-pow2-bit_length : (f a : ℕ) → a < 2 ^ f → a < 2 ^ bit_length f a
lt-pow2-bit_length zero a h = omega (arith, ap (λ (t : ℕ). 2 ^ t) (bit_length-none a))
lt-pow2-bit_length (suc f) zero h = pow2-pos (bit_length (suc f) 0)
lt-pow2-bit_length (suc f) (suc a) h = rw bit_length-suc (
    omega (
      arith,
      pow2-suc (bit_length f (suc a / 2)),
      lt-pow2-bit_length f (suc a / 2) (omega (arith, pow2-suc f)),
    ))

pub pow2-le_of_bit_length : (f a k : ℕ) → bit_length f a ≡ suc k → 2 ^ k ≤ a
unfolding bit_length
pow2-le_of_bit_length zero a k e = absurd (omega arith)
pow2-le_of_bit_length (suc f) zero k e = absurd (omega arith)
pow2-le_of_bit_length (suc f) (suc a) zero e = omega arith
pow2-le_of_bit_length (suc f) (suc a) (suc k) e = omega (
  arith,
  pow2-suc k,
  pow2-le_of_bit_length f (suc a / 2) k (omega (arith, e, bit_length-suc f a)),
)

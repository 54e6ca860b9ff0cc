-- ===== src/Prelude/Bits.antt =====
-- The laws of `bit_and` and `bit_xor` that the CRC and the flag tests rest on, at every width:
-- one step on the lowest binary digit, and inductions on it.
use Prim.Native.Nat.{
  ℕ, zero, suc, ◌+◌, ◌-◌, ◌*◌, ◌/◌, ◌%◌, ◌^◌, ◌≤◌, ◌<◌, min, bit_and, bit_xor, digits, differ,
  bit_and-bitwise, bit_xor-bitwise,
}
use mathlib.Core.Path.{◌≡◌, ◌∙◌, refl, ap}
use native.Mathlib.Omega.{arith}
use native.Mathlib.Nat.{pow-suc}

-- The count of digits to go does not matter once it is enough.
module _ (z : ℕ → ℕ) (f : ℕ → ℕ → ℕ) where
  digits-spare : (n a b : ℕ) → a ≤ n → digits z f (suc n) a b ≡ digits z f n a b
  digits-spare zero zero b p = refl
  digits-spare zero (suc a) b p = absurd (omega arith)
  digits-spare (suc n) zero b p = refl
  digits-spare (suc n) (suc a) b p = rw (digits-spare n (suc a / 2) (b / 2) (omega arith)) refl

  digits-enough : (k a b : ℕ) → digits z f (k + a) a b ≡ digits z f a a b
  digits-enough zero a b = ap (λ n. digits z f n a b) (omega arith)
  digits-enough (suc k) a b =
      let shift : suc k + a ≡ suc (k + a) = omega arith in
      ap (λ n. digits z f n a b) shift
      ∙ digits-spare (k + a) a b (omega arith)
      ∙ digits-enough k a b

  digits_round :
      (a b : ℕ)
      → digits z f (suc a) (suc a) b
        ≡ digits z f (suc a / 2) (suc a / 2) (b / 2) * 2 + f (suc a % 2) (b % 2)
  digits_round a b =
      let half = suc a / 2 in
      let enough = digits-enough (a - half) half (b / 2) in
      let sum : a ≡ a - half + half = omega arith in
      omega (arith, ap (λ n. digits z f n half (b / 2)) sum, enough)

pub bit_and_digit : (a b : ℕ) → bit_and a b ≡ bit_and (a / 2) (b / 2) * 2 + min (a % 2) (b % 2)
bit_and_digit zero b = simp bit_and-bitwise (omega arith)
bit_and_digit (suc a) b = simp bit_and-bitwise (digits_round (λ y. 0) min a b)

pub bit_and-even : (a m : ℕ) → m % 2 ≡ 0 → bit_and a m ≡ bit_and (a / 2) (m / 2) * 2
bit_and-even a m even = omega (arith, bit_and_digit a m)

differ_parity : (x y : ℕ) → x < 2 → y < 2 → differ x y ≡ (x + y) % 2
differ_parity zero y p q = omega arith
differ_parity (suc zero) zero p q = omega arith
differ_parity (suc zero) (suc zero) p q = omega arith
differ_parity (suc zero) (suc (suc y)) p q = absurd (omega arith)
differ_parity (suc (suc x)) y p q = absurd (omega arith)

pub bit_xor_digit : (a b : ℕ) → bit_xor a b ≡ bit_xor (a / 2) (b / 2) * 2 + (a + b) % 2
bit_xor_digit zero b = simp bit_xor-bitwise (omega arith)
bit_xor_digit (suc a) b =
    let parity = differ_parity (suc a % 2) (b % 2) (omega arith) (omega arith) in
    simp bit_xor-bitwise (omega (arith, digits_round (λ y. y) differ a b, parity))

bit_xor-zero-fuel : (n a : ℕ) → a ≤ n → bit_xor a 0 ≡ a
bit_xor-zero-fuel zero zero h = refl
bit_xor-zero-fuel zero (suc a) h = absurd (omega arith)
bit_xor-zero-fuel (suc n) zero h = refl
bit_xor-zero-fuel (suc n) (suc a) h =
    omega (arith, bit_xor_digit (suc a) 0, bit_xor-zero-fuel n (suc a / 2) (omega arith))

pub bit_xor-zero : (a : ℕ) → bit_xor a 0 ≡ a
bit_xor-zero a = bit_xor-zero-fuel a a (omega arith)

comm-fuel : (n a b : ℕ) → a + b ≤ n → bit_xor a b ≡ bit_xor b a
comm-fuel zero zero zero h = refl
comm-fuel zero zero (suc b) h = absurd (omega arith)
comm-fuel zero (suc a) b h = absurd (omega arith)
comm-fuel (suc n) zero zero h = refl
comm-fuel (suc n) zero (suc b) h = omega (
  arith,
  bit_xor_digit 0 (suc b),
  bit_xor_digit (suc b) 0,
  comm-fuel n (0 / 2) (suc b / 2) (omega arith),
)
comm-fuel (suc n) (suc a) b h = omega (
  arith,
  bit_xor_digit (suc a) b,
  bit_xor_digit b (suc a),
  comm-fuel n (suc a / 2) (b / 2) (omega arith),
)

pub bit_xor_comm : (a b : ℕ) → bit_xor a b ≡ bit_xor b a
bit_xor_comm a b = comm-fuel (a + b) a b (omega arith)

-- Shifting and the lowest bit go through `^`.
pub bit_xor-half : (a b : ℕ) → bit_xor a b / 2 ≡ bit_xor (a / 2) (b / 2)
bit_xor-half a b = omega (arith, bit_xor_digit a b)

pub bit_xor-parity : (a b : ℕ) → bit_xor a b % 2 ≡ (a + b) % 2
bit_xor-parity a b = omega (arith, bit_xor_digit a b)

assoc-round :
    (a b c : ℕ)
    → bit_xor (bit_xor (a / 2) (b / 2)) (c / 2) ≡ bit_xor (a / 2) (bit_xor (b / 2) (c / 2))
    → bit_xor (bit_xor a b) c ≡ bit_xor a (bit_xor b c)
assoc-round a b c h =
    let left : bit_xor (bit_xor a b / 2) (c / 2) ≡ bit_xor (bit_xor (a / 2) (b / 2)) (c / 2) =
      ap (λ t. bit_xor t (c / 2)) (bit_xor-half a b) in
    let right : bit_xor (a / 2) (bit_xor b c / 2) ≡ bit_xor (a / 2) (bit_xor (b / 2) (c / 2)) =
      ap (bit_xor (a / 2)) (bit_xor-half b c) in
    omega (
      arith,
      left,
      right,
      h,
      bit_xor_digit (bit_xor a b) c,
      bit_xor_digit a (bit_xor b c),
      bit_xor-parity a b,
      bit_xor-parity b c,
    )

assoc-fuel : (n a b c : ℕ) → a + b + c ≤ n → bit_xor (bit_xor a b) c ≡ bit_xor a (bit_xor b c)
assoc-fuel zero zero zero zero h = refl
assoc-fuel zero zero zero (suc c) h = absurd (omega arith)
assoc-fuel zero zero (suc b) c h = absurd (omega arith)
assoc-fuel zero (suc a) b c h = absurd (omega arith)
assoc-fuel (suc n) zero zero zero h = refl
assoc-fuel (suc n) zero zero (suc c) h =
    assoc-round 0 0 (suc c) (assoc-fuel n (0 / 2) (0 / 2) (suc c / 2) (omega arith))
assoc-fuel (suc n) zero (suc b) c h =
    assoc-round 0 (suc b) c (assoc-fuel n (0 / 2) (suc b / 2) (c / 2) (omega arith))
assoc-fuel (suc n) (suc a) b c h =
    assoc-round (suc a) b c (assoc-fuel n (suc a / 2) (b / 2) (c / 2) (omega arith))

pub bit_xor_assoc : (a b c : ℕ) → bit_xor (bit_xor a b) c ≡ bit_xor a (bit_xor b c)
bit_xor_assoc a b c = assoc-fuel (a + b + c) a b c (omega arith)

mul-two_pow-suc : (q k : ℕ) → q * 2 ^ suc k ≡ 2 * (q * 2 ^ k)
mul-two_pow-suc q k = omega (arith, ap (λ (t : ℕ). q * t) (pow-suc 2 k))

-- `^` of disjoint fields is their sum.
pub bit_xor_fields : (k q r : ℕ) → r < 2 ^ k → bit_xor r (q * 2 ^ k) ≡ r + q * 2 ^ k
bit_xor_fields zero q zero fits =
    omega (arith, bit_xor_comm 0 (q * 2 ^ 0), bit_xor-zero (q * 2 ^ 0))
bit_xor_fields zero q (suc r) fits = absurd (omega arith)
bit_xor_fields (suc k) q r fits = ground (
  arith,
  bit_xor_digit r (q * 2 ^ suc k),
  mul-two_pow-suc q k,
  pow-suc 2 k,
  bit_xor_fields k q (r / 2) (omega arith),
)

bit_and-zero-fuel : (n a : ℕ) → a ≤ n → bit_and a 0 ≡ 0
bit_and-zero-fuel zero zero h = refl
bit_and-zero-fuel zero (suc a) h = absurd (omega arith)
bit_and-zero-fuel (suc n) zero h = refl
bit_and-zero-fuel (suc n) (suc a) h =
    omega (arith, bit_and_digit (suc a) 0, bit_and-zero-fuel n (suc a / 2) (omega arith))

bit_and-zero : (a : ℕ) → bit_and a 0 ≡ 0
bit_and-zero a = bit_and-zero-fuel a a (omega arith)

bit_and-odd : (a m : ℕ) → bit_and a (2 * m + 1) ≡ bit_and (a / 2) m * 2 + a % 2
bit_and-odd a m = let half : (2 * m + 1) / 2 ≡ m = omega arith in rw half at (bit_and_digit_odd a m)
  where
    bit_and_digit_odd :
        (a m : ℕ) → bit_and a (2 * m + 1) ≡ bit_and (a / 2) ((2 * m + 1) / 2) * 2 + a % 2
    bit_and_digit_odd a m = omega (arith, bit_and_digit a (2 * m + 1))

-- The last byte of a word.
pub bit_and_byte : (a : ℕ) → bit_and a 255 ≡ a % 256
bit_and_byte a = omega (
  arith,
  bit_and-odd a 127,
  bit_and-odd (a / 2) 63,
  bit_and-odd (a / 2 / 2) 31,
  bit_and-odd (a / 2 / 2 / 2) 15,
  bit_and-odd (a / 2 / 2 / 2 / 2) 7,
  bit_and-odd (a / 2 / 2 / 2 / 2 / 2) 3,
  bit_and-odd (a / 2 / 2 / 2 / 2 / 2 / 2) 1,
  bit_and-odd (a / 2 / 2 / 2 / 2 / 2 / 2 / 2) 0,
  bit_and-zero (a / 2 / 2 / 2 / 2 / 2 / 2 / 2 / 2),
)

-- The lowest bit.
pub bit_and-one : (a : ℕ) → bit_and a 1 ≡ a % 2
bit_and-one a = omega (arith, bit_and_digit a 1, bit_and-zero (a / 2))

-- A mask keeps no more than it is given.
bit_and-le-fuel : (n a b : ℕ) → a ≤ n → bit_and a b ≤ b
bit_and-le-fuel zero zero b h = simp bit_and-bitwise (omega arith)
bit_and-le-fuel zero (suc a) b h = absurd (omega arith)
bit_and-le-fuel (suc n) zero b h = simp bit_and-bitwise (omega arith)
bit_and-le-fuel (suc n) (suc a) b h =
    omega (arith, bit_and_digit (suc a) b, bit_and-le-fuel n (suc a / 2) (b / 2) (omega arith))

pub bit_and-le : (a b : ℕ) → bit_and a b ≤ b
bit_and-le a b = bit_and-le-fuel a a b (omega arith)

-- ===== src/Prelude/Powers.antt =====
-- Powers of two: the test `n & (n - 1) == 0`, and how one divides another.
use Prim.Native.Nat.{ℕ, zero, suc, ◌-◌, ◌*◌, ◌/◌, ◌%◌, ◌^◌, ◌≤◌, ◌<◌, bit_and}
use mathlib.Core.Path.{◌≡◌, refl, sym, ap, ◌∙◌}
use mathlib.Core.Logic.{◌⊎◌, inl, inr}
use native.Mathlib.Omega.{arith}
use native.Mathlib.Nat.{pow-suc}
use pg_walview.Prelude.Bits.{bit_and_digit}

bit_and_self-fuel : (fuel n : ℕ) → n ≤ fuel → bit_and n n ≡ n
bit_and_self-fuel fuel zero h = refl
bit_and_self-fuel zero (suc n) h = absurd (omega arith)
bit_and_self-fuel (suc fuel) (suc n) h =
    omega (arith, bit_and_digit (suc n) (suc n), bit_and_self-fuel fuel (suc n / 2) (omega arith))

odd_or_even : (n : ℕ) → (n % 2 ≡ 1) ⊎ (n % 2 ≡ 0)
odd_or_even zero = inr refl
odd_or_even (suc n) = elim (odd_or_even n) [
  | inl odd ↦ inr (omega (arith, odd))
  | inr even ↦ inl (omega (arith, even))
]

-- A positive number that shares no bit with the one below it is a power of two.
power_of_two-fuel : (fuel n : ℕ) → n ≤ fuel → 0 < n → bit_and n (n - 1) ≡ 0 → (k : ℕ) × (n ≡ 2 ^ k)
power_of_two-fuel fuel zero h positive e = absurd (omega arith)
power_of_two-fuel zero (suc n) h positive e = absurd (omega arith)
power_of_two-fuel (suc fuel) (suc zero) h positive e = (0, refl)
power_of_two-fuel (suc fuel) (suc (suc n)) h positive e =
    let m = suc (suc n) in
    let digit = bit_and_digit m (m - 1) in
    let half : bit_and (m / 2) ((m - 1) / 2) ≡ 0 = omega (arith, digit, e) in
    elim (odd_or_even m) [
      | inl odd ↦
          let same : (m - 1) / 2 ≡ m / 2 = omega (arith, odd) in
          let gone = ap (bit_and (m / 2)) same in
          absurd (omega (arith, half, gone, bit_and_self-fuel m (m / 2) (omega arith)))
      | inr even ↦
          let same : (m - 1) / 2 ≡ m / 2 - 1 = omega (arith, even) in
          let (k, p) =
            power_of_two-fuel fuel (m / 2) (omega arith) (omega arith)
              (sym (ap (bit_and (m / 2)) same) ∙ half) in
          (suc k, omega (arith, pow-suc 2 k, p, even))
    ]

pub power_of_two : (n : ℕ) → 0 < n → bit_and n (n - 1) ≡ 0 → (k : ℕ) × (n ≡ 2 ^ k)
power_of_two n positive e = power_of_two-fuel n n (omega arith) positive e

power_positive : (i : ℕ) → 0 < 2 ^ i
power_positive zero = omega arith
power_positive (suc i) = omega (arith, pow-suc 2 i, power_positive i)

twice : (m p : ℕ) → 2 * (m * p) ≡ m * (2 * p)
twice m p = grind arith

-- The smaller of two powers of two divides the larger.
pub power_divides : (i j : ℕ) → 2 ^ i ≤ 2 ^ j → (m : ℕ) × (2 ^ j ≡ m * 2 ^ i)
power_divides zero j h = (2 ^ j, omega arith)
power_divides (suc i) zero h = absurd (omega (arith, h, pow-suc 2 i, power_positive i))
power_divides (suc i) (suc j) h =
    let (m, e) = power_divides i j (omega (arith, h, pow-suc 2 i, pow-suc 2 j)) in
    let doubled : 2 ^ suc j ≡ m * (2 * 2 ^ i) = omega (arith, pow-suc 2 j, e, twice m (2 ^ i)) in
    let next : 2 * 2 ^ i ≡ 2 ^ suc i = omega (arith, pow-suc 2 i) in
    (m, doubled ∙ ap (λ (p : ℕ). m * p) next)

-- ===== src/Prelude/Int.antt =====
-- Signed integers over the native numbers, and the divisions of Rust's `i64`.
use Prim.Native.Nat.{ℕ, suc, ◌+◌, ◌-◌, ◌*◌, ◌/◌, ◌%◌, ◌<◌}
use mathlib.Core.Path.{◌≡◌}
use mathlib.Core.Bool.{Bool}
use native.Mathlib.Omega.{arith}
use pg_walview.Prelude.Tests.{ltb, leb, if◌then◌else◌}

-- `negsuc n` is -(n + 1).
pub data ℤ : Type 0 where
  pos : ℕ → ℤ
  negsuc : ℕ → ℤ

abbrev pub pos_part : ℤ → ℕ
pos_part (pos n) = n
pos_part (negsuc n) = 0

abbrev pub neg_part : ℤ → ℕ
neg_part (pos n) = 0
neg_part (negsuc n) = suc n

abbrev pub sub_ℕ : ℕ → ℕ → ℤ
sub_ℕ a b = if leb b a then pos (a - b) else negsuc (b - a - 1)

infixl 65 ◌+ℤ◌ ◌-ℤ◌
unfoldable pub ◌+ℤ◌ : ℤ → ℤ → ℤ
a +ℤ b = sub_ℕ (pos_part a + pos_part b) (neg_part a + neg_part b)

unfoldable pub ◌-ℤ◌ : ℤ → ℤ → ℤ
a -ℤ b = sub_ℕ (pos_part a + neg_part b) (neg_part a + pos_part b)

abbrev pub is_neg : ℤ → Bool
is_neg z = ltb 0 (neg_part z)

-- `z * n` for a number that is not negative.
unfoldable pub times : ℤ → ℕ → ℤ
times z n = sub_ℕ (pos_part z * n) (neg_part z * n)

-- `/`, which rounds towards zero.
unfoldable pub div_trunc : ℤ → ℕ → ℤ
div_trunc z n = sub_ℕ (pos_part z / n) (neg_part z / n)

-- `div_euclid` and `rem_euclid` by a positive number.
unfoldable pub div_euclid : ℤ → ℕ → ℤ
div_euclid (pos k) n = pos (k / n)
div_euclid (negsuc k) n = negsuc (k / n)

unfoldable pub rem_euclid : ℤ → ℕ → ℕ
rem_euclid (pos k) n = k % n
rem_euclid (negsuc k) n = n - 1 - k % n

-- A word of `2 * half` values read as signed, and `as i32`, `as i64`.
abbrev pub signed : ℕ → ℕ → ℤ
signed half v = if ltb v half then pos v else sub_ℕ v (2 * half)

unfoldable pub as_i32 : ℤ → ℤ
as_i32 z = signed 2147483648 (rem_euclid z 4294967296)

unfoldable pub as_i64 : ℕ → ℤ
as_i64 v = signed 9223372036854775808 v

pub +ℤ_parts :
    (a b : ℤ)
    → pos_part (a +ℤ b) + neg_part a + neg_part b ≡ neg_part (a +ℤ b) + pos_part a + pos_part b
unfolding ◌+ℤ◌
+ℤ_parts a b = ground arith

pub -ℤ_parts :
    (a b : ℤ)
    → pos_part (a -ℤ b) + neg_part a + pos_part b ≡ neg_part (a -ℤ b) + pos_part a + neg_part b
unfolding ◌-ℤ◌
-ℤ_parts a b = ground arith

pub eq_of_parts : (a b : ℤ) → pos_part a + neg_part b ≡ pos_part b + neg_part a → a ≡ b
eq_of_parts a b h = ground arith

-- A number that 32 bits hold is unchanged.
pub as_i32-id : (z : ℤ) → pos_part z < 2147483648 → neg_part z < 2147483648 → as_i32 z ≡ z
unfolding as_i32 rem_euclid
as_i32-id z p n = ground arith

pub ruleset int_laws = (arith, +ℤ_parts, -ℤ_parts, eq_of_parts)

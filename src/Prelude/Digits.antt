-- ===== src/Prelude/Digits.antt =====
-- Numbers as text, as `format!` writes them. A text is the list of its characters' codes.
use Prim.Native.Nat.{ℕ, zero, suc, ◌+◌, ◌-◌, ◌/◌, ◌%◌, ◌^◌, ◌≤◌, ◌<◌, max}
use Prim.Native.Char.{code}
use Prim.Native.String.{String}
use mathlib.Core.Path.{◌≡◌, refl}
use mathlib.Core.List.{List, [], ◌∷◌, ◌++◌}
use native.Mathlib.Omega.{arith}
use native.Mathlib.Nat.{pow-suc}
use pg_walview.Prelude.Lists.{length, length-append, replicate}
use pg_walview.Prelude.Tests.{ltb, ◌==◌, if◌then◌else◌}

-- The text of a literal.
abbrev pub codes : String → List ℕ
codes String.[] = []
codes (String.◌∷◌ c s) = code c ∷ codes s

abbrev pub lower_digit : ℕ → ℕ
lower_digit d = if ltb d 10 then b'0' + d else b'a' + (d - 10)

abbrev pub upper_digit : ℕ → ℕ
upper_digit d = if ltb d 10 then b'0' + d else b'A' + (d - 10)

-- The last `n` digits of `v` in a base.
abbrev pub last_digits : (ℕ → ℕ) → ℕ → ℕ → ℕ → List ℕ
last_digits digit base zero v = []
last_digits digit base (suc n) v = last_digits digit base n (v / base) ++ (digit (v % base) ∷ [])

-- How many digits a number has, 0 for the number 0.
abbrev pub digit_count : ℕ → ℕ → ℕ → ℕ
digit_count base zero v = 0
digit_count base (suc fuel) v =
    let rest = digit_count base fuel (v / base) in if v == 0 then 0 else suc rest

-- A word of 64 bits has at most 64 digits in any base from 2 up.
abbrev pub at_least : (ℕ → ℕ) → ℕ → ℕ → ℕ → List ℕ
at_least digit base width v = last_digits digit base (max width (digit_count base 64 v)) v

-- `{:0<width>x}` and `{:0<width>X}`
unfoldable pub lower_hex : ℕ → ℕ → List ℕ
lower_hex = at_least lower_digit 16

unfoldable pub upper_hex : ℕ → ℕ → List ℕ
upper_hex = at_least upper_digit 16

-- `{:0<width>}`, and `{}` at width 1
unfoldable pub decimal : ℕ → ℕ → List ℕ
decimal = at_least lower_digit 10

abbrev pub space : ℕ
space = 0x20

-- `{:<width>}` of a text
unfoldable pub pad_right : ℕ → List ℕ → List ℕ
pad_right width text = text ++ replicate (width - length text) space

pub length-last_digits : (digit : ℕ → ℕ) (base n v : ℕ) → length (last_digits digit base n v) ≡ n
length-last_digits digit base zero v = refl
length-last_digits digit base (suc n) v =
    let tail : List ℕ = digit (v % base) ∷ [] in
    omega (
      arith,
      length-append (last_digits digit base n (v / base)) tail,
      length-last_digits digit base n (v / base),
    )

-- A bound on the number bounds the digits.
pub digit_count-le : (fuel n v : ℕ) → v < 16 ^ n → digit_count 16 fuel v ≤ n
digit_count-le zero n v h = omega arith
digit_count-le (suc fuel) zero zero h = omega arith
digit_count-le (suc fuel) zero (suc v) h = absurd (omega arith)
digit_count-le (suc fuel) (suc n) v h =
    let rest = digit_count-le fuel n (v / 16) (omega (arith, pow-suc 16 n)) in ground (arith, rest)

pub length-replicate {ℓ} : {A : Type ℓ} (n : ℕ) (a : A) → length (replicate n a) ≡ n
length-replicate zero a = refl
length-replicate (suc n) a = omega (arith, length-replicate n a)

pub length-pad_right :
    (width : ℕ) (text : List ℕ) → length (pad_right width text) ≡ max width (length text)
unfolding pad_right
length-pad_right width text =
    let padding : List ℕ = replicate (width - length text) space in
    omega (arith, length-append text padding, length-replicate (width - length text) space)

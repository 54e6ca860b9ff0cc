-- ===== src/Crc32c/Serial.antt =====
-- CRC-32C as the standard defines it, one bit at a time, and the table against it.
use pg_walview.Prelude.{
  ℕ, zero, suc, ◌+◌, ◌*◌, ◌/◌, ◌%◌, ◌^◌, ◌<◌, bit_and, bit_xor, ◌≡◌, refl, sym, ap, ◌∙◌, List, [],
  ◌∷◌, All, IsByte, if◌then◌else◌, get_or, arith, Bool-cases, inl, inr, has_bits, ◌==◌, ==→eq,
}
use pg_walview.Prelude.Bits.{
  bit_xor_assoc, bit_xor_comm, bit_xor-half, bit_xor-parity, bit_xor_fields, bit_xor-zero,
  bit_and_byte, bit_and-one,
}
use native.Mathlib.Nat.{pow-suc}
use pg_walview.Crc32c.Table.{poly, shift_bits, build_table, table, update_byte, update}

-- One bit of the message leaves the register: the polynomial is added when it is 1.
abbrev pub serial_bit : ℕ → ℕ
serial_bit y = bit_xor (y / 2) (y % 2 * poly)

abbrev pub serial_bits : ℕ → ℕ → ℕ
serial_bits zero y = y
serial_bits (suc n) y = serial_bits n (serial_bit y)

-- A byte enters the register at its low end, and its eight bits leave one by one.
unfoldable pub serial : ℕ → List ℕ → ℕ
serial crc [] = crc
serial crc (b ∷ bytes) = serial (serial_bits 8 (bit_xor crc b)) bytes

-- The parity of a sum picks the sum of the polynomials.
poly_parity : (x y : ℕ) → x < 2 → y < 2 → (x + y) % 2 * poly ≡ bit_xor (x * poly) (y * poly)
poly_parity zero zero p q = refl
poly_parity zero (suc zero) p q = refl
poly_parity zero (suc (suc y)) p q = absurd (omega arith)
poly_parity (suc zero) zero p q = refl
poly_parity (suc zero) (suc zero) p q = refl
poly_parity (suc zero) (suc (suc y)) p q = absurd (omega arith)
poly_parity (suc (suc x)) y p q = absurd (omega arith)

parity_poly : (a b : ℕ) → bit_xor a b % 2 * poly ≡ bit_xor (a % 2 * poly) (b % 2 * poly)
parity_poly a b =
    let parity : bit_xor a b % 2 ≡ (a % 2 + b % 2) % 2 = omega (arith, bit_xor-parity a b) in
    rw parity (poly_parity (a % 2) (b % 2) (omega arith) (omega arith))

interchange :
    (w x y z : ℕ) → bit_xor (bit_xor w x) (bit_xor y z) ≡ bit_xor (bit_xor w y) (bit_xor x z)
interchange w x y z = cc (
  bit_xor_assoc w x (bit_xor y z),
  bit_xor_assoc x y z,
  bit_xor_comm x y,
  bit_xor_assoc y x z,
  bit_xor_assoc w y (bit_xor x z),
)

-- A step of the register is linear over `^`.
serial_bit-xor : (a b : ℕ) → serial_bit (bit_xor a b) ≡ bit_xor (serial_bit a) (serial_bit b)
serial_bit-xor a b =
    rw (bit_xor-half a b, parity_poly a b)
      (interchange (a / 2) (b / 2) (a % 2 * poly) (b % 2 * poly))

serial_bits-xor :
    (n a b : ℕ) → serial_bits n (bit_xor a b) ≡ bit_xor (serial_bits n a) (serial_bits n b)
serial_bits-xor zero a b = refl
serial_bits-xor (suc n) a b =
    rw (serial_bit-xor a b) (serial_bits-xor n (serial_bit a) (serial_bit b))

serial_bit-double : (h : ℕ) → serial_bit (2 * h) ≡ h
serial_bit-double h =
    let half : 2 * h / 2 ≡ h = omega arith in
    let even : 2 * h % 2 * poly ≡ 0 = omega arith in rw (half, even) (bit_xor-zero h)

-- What stands above `n` bits comes down by `n` places.
serial_bits_high : (n h : ℕ) → serial_bits n (h * 2 ^ n) ≡ h
serial_bits_high zero h = omega arith
serial_bits_high (suc n) h =
    let high : h * 2 ^ suc n ≡ 2 * (h * 2 ^ n) =
      omega (arith, ap (λ (t : ℕ). h * t) (pow-suc 2 n)) in
    rw (high, serial_bit-double (h * 2 ^ n)) (serial_bits_high n h)

step-serial : (y : ℕ) → (if has_bits y 1 then bit_xor (y / 2) poly else y / 2) ≡ serial_bit y
step-serial y = elim (Bool-cases (bit_and y 1 == 0)) [
  | inl e ↦
      let even : y % 2 * poly ≡ 0 = omega (arith, bit_and-one y, ==→eq _ _ e) in
      rw (e, even) (sym (bit_xor-zero (y / 2)))
  | inr e ↦ let odd : y % 2 * poly ≡ poly = ground (arith, bit_and-one y) in rw (e, odd) refl
]

shift_bits-serial : (n y : ℕ) → shift_bits n y ≡ serial_bits n y
unfolding shift_bits
shift_bits-serial zero y = refl
shift_bits-serial (suc n) y = rw (step-serial y) (shift_bits-serial n (serial_bit y))

get_or-build_table : (n i j : ℕ) → j < n → get_or (build_table n i) j 0 ≡ shift_bits 8 (i + j)
unfolding build_table
get_or-build_table zero i j h = absurd (omega arith)
get_or-build_table (suc n) i zero h = ap (shift_bits 8) (omega arith)
get_or-build_table (suc n) i (suc j) h =
    get_or-build_table n (i + 1) j (omega arith) ∙ ap (shift_bits 8) (omega arith)

get_or-table : (i : ℕ) → i < 256 → get_or table i 0 ≡ serial_bits 8 i
unfolding table
get_or-table i h =
    get_or-build_table 256 0 i h ∙ ap (shift_bits 8) (omega arith) ∙ shift_bits-serial 8 i

-- A byte does not reach the upper part of the register.
high_part : (crc b : ℕ) → IsByte b → bit_xor crc b / 256 ≡ crc / 256
high_part crc b h =
    let halves : bit_xor crc b / 2 / 2 / 2 / 2 / 2 / 2 / 2 / 2
        ≡ bit_xor (crc / 2 / 2 / 2 / 2 / 2 / 2 / 2 / 2) (b / 2 / 2 / 2 / 2 / 2 / 2 / 2 / 2) =
      simp bit_xor-half in
    let gone : b / 2 / 2 / 2 / 2 / 2 / 2 / 2 / 2 ≡ 0 = omega arith in
    omega (arith, rw (gone, bit_xor-zero (crc / 2 / 2 / 2 / 2 / 2 / 2 / 2 / 2)) at halves)

-- The register is its last byte and the rest.
split_byte : (y : ℕ) → serial_bits 8 y ≡ bit_xor (serial_bits 8 (y % 256)) (y / 256)
split_byte y =
    let parts : y ≡ bit_xor (y % 256) (y / 256 * 2 ^ 8) =
      omega (arith, bit_xor_fields 8 (y / 256) (y % 256) (omega arith)) in
    ap (serial_bits 8) parts
    ∙ serial_bits-xor 8 (y % 256) (y / 256 * 2 ^ 8)
    ∙ ap (bit_xor (serial_bits 8 (y % 256))) (serial_bits_high 8 (y / 256))

update_byte-serial : (crc b : ℕ) → IsByte b → update_byte crc b ≡ serial_bits 8 (bit_xor crc b)
unfolding update_byte
update_byte-serial crc b h =
    let y = bit_xor crc b in
    rw (bit_and_byte y, get_or-table (y % 256) (omega arith), ← high_part crc b h)
      (sym (split_byte y))

-- The table-driven loop computes the bit-serial CRC of every byte string, from every register.
pub update-serial :
    (crc : ℕ) (bytes : List ℕ) → All IsByte bytes → update crc bytes ≡ serial crc bytes
unfolding update serial
update-serial crc [] h = refl
update-serial crc (b ∷ bytes) (p, h) =
    rw (update_byte-serial crc b p) (update-serial (serial_bits 8 (bit_xor crc b)) bytes h)

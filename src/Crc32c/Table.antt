-- ===== src/Crc32c/Table.antt =====
-- The table, and the operations of `Crc32c`.
use pg_walview.Prelude.{
  ℕ, zero, suc, ◌+◌, ◌/◌, ◌^◌, bit_and, bit_xor, ◌≡◌, refl, List, [], ◌∷◌, ◌++◌, has_bits,
  if◌then◌else◌, get_or,
}

abbrev pub poly : ℕ
poly = 0x82F6_3B78

-- `while bit < 8` of `build_table`, with the count of rounds left.
unfoldable pub shift_bits : ℕ → ℕ → ℕ
shift_bits zero crc = crc
shift_bits (suc n) crc = shift_bits n (if has_bits crc 1 then bit_xor (crc / 2) poly else crc / 2)

-- `while i < 256`: the entries from `i` on, `n` of them left.
unfoldable pub build_table : ℕ → ℕ → List ℕ
unfolding shift_bits
build_table zero i = []
build_table (suc n) i = shift_bits 8 i ∷ build_table n (i + 1)

unfoldable pub table : List ℕ
unfolding build_table
table = build_table 256 0

unfoldable pub new : ℕ
new = 0xFFFF_FFFF

-- The body of the loop of `update`.
unfoldable pub update_byte : ℕ → ℕ → ℕ
update_byte crc b = bit_xor (get_or table (bit_and (bit_xor crc b) 0xFF) 0) (crc / 2 ^ 8)

unfoldable pub update : ℕ → List ℕ → ℕ
update crc [] = crc
update crc (b ∷ bytes) = update (update_byte crc b) bytes

unfoldable pub finish : ℕ → ℕ
finish crc = bit_xor crc 0xFFFF_FFFF

unfoldable pub crc32c : List ℕ → ℕ
unfolding new update update_byte finish
crc32c bytes = finish (update new bytes)

-- Feeding a buffer in two parts is feeding it whole: the checksum is incremental.
pub update-append :
    (crc : ℕ) (front back : List ℕ) → update crc (front ++ back) ≡ update (update crc front) back
unfolding update
update-append crc [] back = refl
update-append crc (b ∷ front) back = update-append (update_byte crc b) front back

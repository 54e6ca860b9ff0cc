-- ===== src/Walmisc/Reader.antt =====
-- The byte reader of src/walmisc.rs. A method returns its result and the reader that it leaves.
pub mod Laws
use pg_walview.Prelude.{
  ℕ, zero, suc, ◌+◌, ◌-◌, ◌%◌, ◌≤◌, ◌<◌, min, Bool, true, false, not, ◌&&◌, Option, none, some,
  List, [], ◌∷◌, length, get_or, drop, take, slice, ltb, leb, ◌==◌, if◌then◌else◌, u64_mod,
}
use pg_walview.Prelude.Int.{ℤ, pos, as_i32, as_i64}
use pg_walview.Walmisc.Words.{from_le_bytes}
use mathlib.Core.Option

pub record Reader : Type 0 where
  pub buf : List ℕ
  pub pos : ℕ

unfoldable pub new : List ℕ → Reader
new buf = record { buf = buf; pos = 0 }

-- `saturating_sub`
unfoldable pub remaining : Reader → ℕ
remaining r = length r.buf - r.pos

unfoldable pub read_u8 : Reader → Option ℕ × Reader
read_u8 r =
    if ltb r.pos (length r.buf)
    then (some (get_or r.buf r.pos 0), record r { pos = r.pos + 1 })
    else (none, r)

unfoldable pub read_bool : Reader → Option Bool × Reader
unfolding read_u8
read_bool r = let (v, r') = read_u8 r in (Option.map (λ b. not (b == 0)) v, r')

-- The common body of `read_u16_le`, `read_u32_le` and `read_u64_le`.
unfoldable pub read_le : ℕ → Reader → Option ℕ × Reader
read_le width r =
    if leb (r.pos + width) (length r.buf)
    then (some (from_le_bytes (slice r.pos width r.buf)), record r { pos = r.pos + width })
    else (none, r)

unfoldable pub read_u16_le : Reader → Option ℕ × Reader
unfolding read_le
read_u16_le = read_le 2

unfoldable pub read_u32_le : Reader → Option ℕ × Reader
unfolding read_le
read_u32_le = read_le 4

unfoldable pub read_u64_le : Reader → Option ℕ × Reader
unfolding read_le
read_u64_le = read_le 8

-- `v as i32` and `v as i64`
unfoldable pub read_i32_le : Reader → Option ℤ × Reader
unfolding read_u32_le
read_i32_le r = let (v, r') = read_u32_le r in (Option.map (λ n. as_i32 (pos n)) v, r')

unfoldable pub read_i64_le : Reader → Option ℤ × Reader
unfolding read_u64_le
read_i64_le r = let (v, r') = read_u64_le r in (Option.map as_i64 v, r')

-- `checked_add` refuses a sum that a 64-bit `usize` cannot hold.
unfoldable pub take_bytes : ℕ → Reader → Option (List ℕ) × Reader
take_bytes n r =
    if leb u64_mod (r.pos + n)
    then (none, r)
    else if ltb (length r.buf) (r.pos + n)
    then (none, r)
    else (some (slice r.pos n r.buf), record r { pos = r.pos + n })

-- The sum wraps, as it does in a release build.
unfoldable pub skip : ℕ → Reader → Reader
skip n r = record r { pos = min ((r.pos + n) % u64_mod) (length r.buf) }

unfoldable pub align_to : ℕ → Reader → Reader
align_to align r =
    if ltb 1 align && not (r.pos % align == 0)
    then record r { pos = min (r.pos + (align - r.pos % align)) (length r.buf) }
    else r

-- The bytes up to the next zero byte: the part of the loop of `read_cstr` that collects them.
unfoldable pub until_zero : List ℕ → List ℕ
until_zero [] = []
until_zero (b ∷ rest) = let more = until_zero rest in if b == 0 then [] else b ∷ more

-- The text's bytes; the source makes a `String` of them.
unfoldable pub read_cstr : Reader → List ℕ × Reader
unfolding until_zero
read_cstr r =
    let text = until_zero (drop r.pos r.buf) in
    let stop = r.pos + length text in
    (text, record r { pos = if ltb stop (length r.buf) then stop + 1 else stop })

unfoldable pub peek_bytes : ℕ → Reader → List ℕ
peek_bytes n r =
    let stop = min ((r.pos + n) % u64_mod) (length r.buf) in slice r.pos (stop - r.pos) r.buf

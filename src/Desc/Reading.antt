-- ===== src/Desc/Reading.antt =====
-- The reader as the describing functions use it: a field that is missing counts as zero.
pub mod Safe
use mathlib.Core.Option
use pg_walview.Prelude.{
  ℕ, zero, suc, ◌+◌, ◌-◌, ◌%◌, min, Bool, true, false, Option, none, some, List, [], ◌∷◌, ◌++◌,
  length, ltb, if◌then◌else◌, u64_mod, has_bits,
}
use pg_walview.Prelude.Digits.{codes, lower_hex, decimal}
use pg_walview.Prelude.Int.{ℤ, pos, negsuc, ◌-ℤ◌, as_i32}
use pg_walview.Walmisc.Reader.{
  Reader, new, remaining, read_u8, read_bool, read_u16_le, read_u32_le, read_i32_le, read_u64_le,
  read_i64_le, skip, read_cstr, peek_bytes,
}

-- A line is its characters.
abbrev pub Text : Type 0
Text = List ℕ

-- What a stretch of a parser makes of the reader. `none` is a panic, after which nothing is read.
abbrev pub Parse : Type 0 → Type 0
Parse A = Reader → Option (A × Reader)

infixl 5 ◌>>◌ ◌>>=◌
-- A method of the reader, which never panics.
abbrev pub read : {A : Type 0} → (Reader → A × Reader) → Parse A
read method r = some (method r)

abbrev resume : {A B : Type 0} → (A → Parse B) → Option (A × Reader) → Option (B × Reader)
resume after none = none
resume after (some (value, reader)) = after value reader

abbrev pub ◌>>=◌ : {A B : Type 0} → Parse A → (A → Parse B) → Parse B
(step >>= after) reader = resume after (step reader)

abbrev pub ◌>>◌ : {B : Type 0} → Parse (Unit {0}) → Parse B → Parse B
(step >> next) reader = resume (λ done. next) (step reader)

abbrev pub pure : {A : Type 0} → A → Parse A
pure value = read (λ reader. (value, reader))

-- `_.unwrap_or(default)`
abbrev pub or_default : {A : Type 0} → A → (Reader → Option A × Reader) → Parse A
or_default d method = read method >>= λ v. pure (elim v [ none ↦ d | some a ↦ a ])

unfoldable pub field_u8 : Parse ℕ
field_u8 = or_default 0 read_u8

unfoldable pub field_bool : Parse Bool
field_bool = or_default false read_bool

unfoldable pub field_u16 : Parse ℕ
field_u16 = or_default 0 read_u16_le

unfoldable pub field_u32 : Parse ℕ
field_u32 = or_default 0 read_u32_le

unfoldable pub field_i32 : Parse ℤ
field_i32 = or_default (pos 0) read_i32_le

unfoldable pub field_u64 : Parse ℕ
field_u64 = or_default 0 read_u64_le

unfoldable pub field_i64 : Parse ℤ
field_i64 = or_default (pos 0) read_i64_le

unfoldable pub skip_bytes : ℕ → Parse (Unit {0})
skip_bytes n r = some (tt, skip n r)

unfoldable pub cstr : Parse (List ℕ)
cstr = read read_cstr

unfoldable pub bytes_left : Parse ℕ
bytes_left r = some (remaining r, r)

-- `&buf[pos..end]` panics when the end is before the cursor.
unfoldable pub peek : ℕ → Parse (List ℕ)
peek n r =
    if ltb (min ((r.pos + n) % u64_mod) (length r.buf)) r.pos
    then none
    else some (peek_bytes n r, r)

abbrev pub unwrapped : {A : Type 0} → Option A × Reader → Option (A × Reader)
unwrapped (none, r) = none
unwrapped (some a, r) = some (a, r)

-- `_.unwrap()`
unfoldable pub unwrap : {A : Type 0} → (Reader → Option A × Reader) → Parse A
unwrap method r = unwrapped (method r)

-- What does not use the reader, and may panic.
unfoldable pub panics_on_none : {A : Type 0} → Option A → Parse A
panics_on_none v r = Option.map (λ a. (a, r)) v

-- A reader on a slice, which is dropped at the end.
unfoldable pub run_on : {A : Type 0} → Parse A → List ℕ → Option A
run_on m bytes = Option.map (λ p. p.0) (m (new bytes))

abbrev pub xlr_rmgr_info_mask : ℕ
xlr_rmgr_info_mask = 0xF0

-- A loop over `n` indices from `i`, of which each gives some lines.
unfoldable pub each : (ℕ → Parse (List Text)) → ℕ → ℕ → Parse (List Text)
each body zero i = pure []
each body (suc n) i = body i >>= λ lines. each body n (i + 1) >>= λ more. pure (lines ++ more)

-- `if let Some(v) = _ { lines.push(_) }`
unfoldable pub line_if_u32 : (ℕ → Text) → Parse (List Text)
line_if_u32 line = read read_u32_le >>= λ v. pure (elim v [ none ↦ [] | some a ↦ line a ∷ [] ])

unfoldable pub line_if_u16 : (ℕ → Text) → Parse (List Text)
line_if_u16 line = read read_u16_le >>= λ v. pure (elim v [ none ↦ [] | some a ↦ line a ∷ [] ])

abbrev pub when : Bool → List Text → List Text
when b lines = if b then lines else []

-- `n as usize`, and `n.max(0) as usize`
unfoldable pub as_usize : ℤ → ℕ
as_usize (pos n) = n
as_usize (negsuc n) = u64_mod - 1 - n

-- `{}` of the kinds of values
abbrev pub num : ℕ → Text
num = decimal 1

abbrev pub int : ℤ → Text
int (pos n) = num n
int (negsuc n) = codes "-" ++ num (suc n)

abbrev pub bool : Bool → Text
bool b = if b then codes "true" else codes "false"

-- `n - k` of an `i32`, which wraps.
abbrev pub int_less : ℤ → ℕ → Text
int_less n k = int (as_i32 (n -ℤ pos k))

abbrev pub rel_text : ℕ → ℕ → ℕ → Text
rel_text spc db rel = num spc ++ codes "/" ++ num db ++ codes "/" ++ num rel

-- The names of the flags that are set, from the first bit listed on.
unfoldable pub names_of : List (ℕ × Text) → ℕ → List Text
names_of [] flags = []
names_of ((mask, name) ∷ table) flags =
    let names = names_of table flags in if has_bits flags mask then name ∷ names else names

-- `p.join(_)`
unfoldable pub join : Text → List Text → Text
join sep [] = []
join sep (name ∷ []) = name
join sep (name ∷ other ∷ names) = name ++ sep ++ join sep (other ∷ names)

-- `0x{:0<width>x}`, with the names of the flags behind it if there are any.
unfoldable pub flags_text : List (ℕ × Text) → Text → ℕ → ℕ → Text
unfolding names_of
flags_text table sep width flags = elim (names_of table flags) [
  | [] ↦ codes "0x" ++ lower_hex width flags
  | name ∷ names ↦
      codes "0x" ++ lower_hex width flags ++ codes " (" ++ join sep (name ∷ names) ++ codes ")"
]

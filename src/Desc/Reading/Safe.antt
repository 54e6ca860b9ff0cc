-- ===== src/Desc/Reading/Safe.antt =====
-- The cursor stays in the buffer, and nothing panics: rules for what is put together from reads.
use pg_walview.Prelude.{
  ℕ, zero, suc, ◌+◌, ◌-◌, ◌%◌, ◌≤◌, ◌<◌, ◌≡◌, refl, min, Bool, true, false, ◌&&◌, Option, none,
  some, List, [], ◌∷◌, ◌++◌, length, ltb, leb, if◌then◌else◌, arith, Bool-cases, inl, inr, drop,
  length-drop, u64_mod,
}
use pg_walview.Prelude.Int.{pos}
use pg_walview.Walmisc.Reader.{
  Reader, new, remaining, read_u8, read_bool, read_le, read_u16_le, read_u32_le, read_i32_le,
  read_u64_le, read_i64_le, skip, read_cstr, until_zero, peek_bytes,
}
use pg_walview.Desc.Reading.{
  Text, Parse, pure, ◌>>=◌, ◌>>◌, read, or_default, field_u8, field_bool, field_u16, field_u32,
  field_i32, field_u64, field_i64, skip_bytes, cstr, bytes_left, peek, panics_on_none, run_on, each,
  line_if_u32, line_if_u16,
}

-- A slice of Rust has less than 2^63 bytes.
abbrev pub max_len : ℕ
max_len = 9223372036854775808

abbrev pub IsFit : Reader → Type 0
IsFit r = (r.pos ≤ length r.buf) × (length r.buf < max_len)

-- A result, and a reader with its cursor in the buffer.
abbrev pub Returns : {A : Type 0} → Option (A × Reader) → Type 0
Returns {A} result = (p : A × Reader) × (result ≡ some p) × IsFit p.1

abbrev pub Safe : {A : Type 0} → Parse A → Type 0
Safe m = (r : Reader) → IsFit r → Returns (m r)

pub pure-Safe : {A : Type 0} (a : A) → Safe (pure a)
pure-Safe a r fit = ((a, r), refl, fit)

pub bind-Safe :
    {A B : Type 0} {m : Parse A} {f : A → Parse B}
    → Safe m
    → ((a : A) → Safe (f a))
    → Safe (m >>= f)
bind-Safe h k r fit = let ((a, r'), e, fit') = h r fit in rw (e, ◌>>=◌) (k a r' fit')

pub then-Safe : {B : Type 0} {m : Parse (Unit {0})} {k : Parse B} → Safe m → Safe k → Safe (m >> k)
then-Safe h k = bind-Safe h (λ a. k)

-- A method that keeps the cursor in the buffer.
abbrev Keeps : {A : Type 0} → (Reader → A × Reader) → Type 0
Keeps method = (r : Reader) → IsFit r → IsFit (method r).1

read-Safe : {A : Type 0} (method : Reader → A × Reader) → Keeps method → Safe (read method)
read-Safe method keeps r fit = (method r, refl, keeps r fit)

or_default-Safe :
    {A : Type 0} (d : A) (method : Reader → Option A × Reader)
    → Keeps method
    → Safe (or_default d method)
or_default-Safe d method keeps r fit = (_, refl, keeps r fit)

read_u8-Keeps : Keeps read_u8
unfolding read_u8
read_u8-Keeps r (at, len) = elim (Bool-cases (ltb r.pos (length r.buf))) [
  | inl e ↦ rw e (ground arith, len)
  | inr e ↦ rw e (at, len)
]

read_le-Keeps : (w : ℕ) → Keeps (read_le w)
unfolding read_le
read_le-Keeps w r (at, len) = elim (Bool-cases (leb (r.pos + w) (length r.buf))) [
  | inl e ↦ rw e (ground arith, len)
  | inr e ↦ rw e (at, len)
]

pub field_u8-Safe : Safe field_u8
unfolding field_u8
field_u8-Safe = or_default-Safe 0 read_u8 read_u8-Keeps

pub field_bool-Safe : Safe field_bool
unfolding field_bool read_bool
field_bool-Safe = or_default-Safe false read_bool read_u8-Keeps

pub field_u16-Safe : Safe field_u16
unfolding field_u16 read_u16_le
field_u16-Safe = or_default-Safe 0 read_u16_le (read_le-Keeps 2)

pub field_u32-Safe : Safe field_u32
unfolding field_u32 read_u32_le
field_u32-Safe = or_default-Safe 0 read_u32_le (read_le-Keeps 4)

pub field_i32-Safe : Safe field_i32
unfolding field_i32 read_i32_le
field_i32-Safe = or_default-Safe (pos 0) read_i32_le (read_le-Keeps 4)

pub field_u64-Safe : Safe field_u64
unfolding field_u64 read_u64_le
field_u64-Safe = or_default-Safe 0 read_u64_le (read_le-Keeps 8)

pub field_i64-Safe : Safe field_i64
unfolding field_i64 read_i64_le
field_i64-Safe = or_default-Safe (pos 0) read_i64_le (read_le-Keeps 8)

pub skip_bytes-Safe : (n : ℕ) → Safe (skip_bytes n)
unfolding skip_bytes skip
skip_bytes-Safe n r (at, len) = (_, refl, (omega arith, len))

length-until_zero : (bytes : List ℕ) → length (until_zero bytes) ≤ length bytes
unfolding until_zero
length-until_zero [] = omega arith
length-until_zero (b ∷ bytes) = ground (arith, length-until_zero bytes)

pub cstr-Safe : Safe cstr
unfolding cstr read_cstr
cstr-Safe r (at, len) =
    let short = length-until_zero (drop r.pos r.buf) in
    let rest = length-drop r.pos r.buf in (_, refl, (ground arith, len))

pub left-Safe : Safe bytes_left
unfolding bytes_left
left-Safe r fit = (_, refl, fit)

-- What is left is known to be in the buffer.
pub bytes_left-Safe :
    {B : Type 0} {f : ℕ → Parse B} → ((n : ℕ) → n < max_len → Safe (f n)) → Safe (bytes_left >>= f)
unfolding bytes_left remaining
bytes_left-Safe k r (at, len) = k (length r.buf - r.pos) (omega arith) r (at, len)

pub peek-some : (n : ℕ) (r : Reader) → n < max_len → IsFit r → peek n r ≡ some (peek_bytes n r, r)
unfolding peek
peek-some n r small (at, len) =
    let inside : ltb (min ((r.pos + n) % u64_mod) (length r.buf)) r.pos ≡ false = ground arith in
    rw inside refl

pub peek-Safe : (n : ℕ) → n < max_len → Safe (peek n)
peek-Safe n small r fit = (_, peek-some n r small fit, fit)

pub each-Safe :
    (body : ℕ → Parse (List Text)) (n i : ℕ) → ((i : ℕ) → Safe (body i)) → Safe (each body n i)
unfolding each
each-Safe body zero i h = pure-Safe []
each-Safe body (suc n) i h =
    bind-Safe (h i)
      (λ lines. bind-Safe (each-Safe body n (i + 1) h) (λ more. pure-Safe (lines ++ more)))

pub read_u32-Safe : Safe (read read_u32_le)
unfolding read_u32_le
read_u32-Safe = read-Safe read_u32_le (read_le-Keeps 4)

pub line_if_u32-Safe : (line : ℕ → Text) → Safe (line_if_u32 line)
unfolding line_if_u32 read_u32_le
line_if_u32-Safe line =
    bind-Safe (read-Safe read_u32_le (read_le-Keeps 4))
      (λ v. pure-Safe (elim v [ none ↦ [] | some a ↦ line a ∷ [] ]))

pub line_if_u16-Safe : (line : ℕ → Text) → Safe (line_if_u16 line)
unfolding line_if_u16 read_u16_le
line_if_u16-Safe line =
    bind-Safe (read-Safe read_u16_le (read_le-Keeps 2))
      (λ v. pure-Safe (elim v [ none ↦ [] | some a ↦ line a ∷ [] ]))

pub panics_on_none-Safe : {A : Type 0} (v : Option A) (a : A) → v ≡ some a → Safe (panics_on_none v)
unfolding panics_on_none
panics_on_none-Safe v a e r fit = rw e ((a, r), refl, fit)

-- A function on a slice returns.
pub run_on-some :
    {A : Type 0} (m : Parse A) (bytes : List ℕ)
    → length bytes < max_len
    → Safe m
    → (a : A) × (run_on m bytes ≡ some a)
unfolding run_on new
run_on-some m bytes small safe =
    let (p, e, fit) = safe (record { buf = bytes; pos = 0 }) (omega arith, small) in
    rw e (p.0, refl)

-- A test of what was read.
pub if-Safe : {A : Type 0} (b : Bool) {m k : Parse A} → Safe m → Safe k → Safe (if b then m else k)
if-Safe true h g = h
if-Safe false h g = g

pub and-false : (b : Bool) → (b && false) ≡ false
and-false true = refl
and-false false = refl

pub ruleset safe_rules = (
  bind-Safe, then-Safe, pure-Safe, if-Safe, field_u8-Safe, field_bool-Safe, field_u16-Safe,
  field_u32-Safe, field_i32-Safe, field_u64-Safe, field_i64-Safe, skip_bytes-Safe, cstr-Safe,
  left-Safe, each-Safe, line_if_u32-Safe, line_if_u16-Safe,
)

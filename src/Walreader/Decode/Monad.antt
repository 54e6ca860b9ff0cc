-- ===== src/Walreader/Decode/Monad.antt =====
-- A parser over the byte reader that may fail: the `?` operator of the source.
use pg_walview.Prelude.{ℕ, Bool, true, false, Option, none, some}
use pg_walview.Walmisc.Reader
use pg_walview.Walmisc.Reader.{Reader}
use pg_walview.Walreader.Types.{WalReaderError, truncated_record, Result, ok, err, stuck}

abbrev pub Parse {ℓ} : Type ℓ → Type ℓ
Parse A = Reader → Result (A × Reader)

abbrev pub continue {ℓ κ} :
    {A : Type ℓ} {B : Type κ} → Result (A × Reader) → (A → Parse B) → Result (B × Reader)
continue (ok (a, r)) f = f a r
continue (err e) f = err e
continue stuck f = stuck

infixl 5 ◌>>=◌ ◌>>◌
abbrev pub ◌>>=◌ {ℓ κ} : {A : Type ℓ} {B : Type κ} → Parse A → (A → Parse B) → Parse B
◌>>=◌ m f r = continue (m r) f

abbrev pub ◌>>◌ {ℓ κ} : {A : Type ℓ} {B : Type κ} → Parse A → Parse B → Parse B
m >> k = m >>= λ _. k

abbrev pub pure {ℓ} : {A : Type ℓ} → A → Parse A
pure a r = ok (a, r)

abbrev pub fail {ℓ} : {A : Type ℓ} → WalReaderError → Parse A
fail e r = err e

-- `if failing { return Err(e) }`
unfoldable pub reject_if : Bool → WalReaderError → Parse (Unit {0})
reject_if true e r = err e
reject_if false e r = ok (tt, r)

-- `.ok_or_else(|| truncated(lsn))?`
abbrev pub or_truncated {ℓ} : {A : Type ℓ} → ℕ → (Reader → Option A × Reader) → Parse A
or_truncated lsn read r =
    let (v, r') = read r in elim v [ none ↦ err (truncated_record lsn) | some a ↦ ok (a, r') ]

-- `o.ok_or(e)?`
unfoldable pub or_fail {ℓ} : {A : Type ℓ} → Option A → WalReaderError → Parse A
or_fail none e r = err e
or_fail (some a) e r = ok (a, r)

unfoldable pub u8 : ℕ → Parse ℕ
unfolding Reader.read_u8
u8 lsn = or_truncated lsn Reader.read_u8

unfoldable pub u16 : ℕ → Parse ℕ
unfolding Reader.read_u16_le
u16 lsn = or_truncated lsn Reader.read_u16_le

unfoldable pub u32 : ℕ → Parse ℕ
unfolding Reader.read_u32_le
u32 lsn = or_truncated lsn Reader.read_u32_le

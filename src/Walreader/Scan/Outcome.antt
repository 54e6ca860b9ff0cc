-- ===== src/Walreader/Scan/Outcome.antt =====
-- How the methods of `WALReader` are specified: `Ends Q` says that a method ends, and that `Q` holds
-- of what it returns and of the reader then.
use pg_walview.Prelude.{ℕ, ◌≤◌, ◌<◌, arith}
use pg_walview.Bindings.{Bindings, IsLayout, XLogPageHeader}
use pg_walview.Walreader.Types.{Result, ok, err, stuck}
use pg_walview.Walreader.Pages.{WalReader, header_size}
use pg_walview.Walreader.Pages.Exec.{Exec, after}

unfoldable pub Ends {ℓ} : {A : Type ℓ} → (A → WalReader → Type 0) → Result A × WalReader → Type 0
Ends Q (ok a, r) = Q a r
Ends Q (err e, r) = Unit
Ends Q (stuck, r) = ⊥

pub Ends-after {ℓ κ} :
    {A : Type ℓ} {B : Type κ} (P : A → WalReader → Type 0) (Q : B → WalReader → Type 0)
    (x : Result A × WalReader) (f : A → Exec WalReader B)
    → Ends P x
    → ((a : A) (r : WalReader) → P a r → Ends Q (f a r))
    → Ends Q (after x.0 f x.1)
unfolding Ends
Ends-after P Q (ok a, r) f p k = k a r p
Ends-after P Q (err e, r) f p k = tt
Ends-after P Q (stuck, r) f p k = p

-- A page header, short or long.
pub header_size_bounds :
    (c : Bindings)
    → IsLayout c
    → (h : XLogPageHeader) (blcksz : ℕ) → 40 < blcksz
    → (24 ≤ header_size c h) × (header_size c h < blcksz)
unfolding header_size
header_size_bounds c layout h blcksz big =
    let short = layout.page_header_size in let long = layout.long_page_header_size in ground arith

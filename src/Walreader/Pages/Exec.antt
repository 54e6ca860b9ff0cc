-- ===== src/Walreader/Pages/Exec.antt =====
-- Methods of `&mut WALReader` that may fail. What was written before an error stays written, so the
-- reader comes back beside it.
use pg_walview.Walreader.Types.{Result, ok, err, stuck}

abbrev pub Exec {ℓ κ} : Type ℓ → Type κ → Type (ℓ ⊔ κ)
Exec S A = S → Result A × S

module _ {ℓ κ λ'} {S : Type ℓ} {A : Type κ} {B : Type λ'} where
  abbrev pub after : Result A → (A → Exec S B) → Exec S B
  after (ok a) f s = f a s
  after (err e) f s = (err e, s)
  after stuck f s = (stuck, s)

  infixl 5 ◌>>=◌
  abbrev pub ◌>>=◌ : Exec S A → (A → Exec S B) → Exec S B
  ◌>>=◌ m f s = after (m s).0 f (m s).1

-- ===== src/Walreader/Decode/Outcome.antt =====
-- How a parser is specified: `Sound Q` says that it ends, and that `Q` holds of what it returns.
-- Each way to build a parser has a rule.
use pg_walview.Prelude.{
  ℕ, ◌+◌, ◌≤◌, ◌≡◌, ◌≢◌, refl, Bool, true, false, length, arith, if◌then◌else◌,
}
use pg_walview.Walmisc.Reader.{Reader}
use pg_walview.Walreader.Types.{WalReaderError, Result, ok, err, stuck}
use pg_walview.Walreader.Decode.Monad.{Parse, continue, reject_if, u8, u16, u32}

unfoldable pub Sound {ℓ} : {A : Type ℓ} → (A → Reader → Type 0) → Result (A × Reader) → Type 0
Sound Q (ok (a, r)) = Q a r
Sound Q (err e) = Unit
Sound Q stuck = ⊥

-- Success, with `Q` of what is returned.
unfoldable pub Succeeds {ℓ} : {A : Type ℓ} → (A → Reader → Type 0) → Result (A × Reader) → Type 0
Succeeds Q (ok (a, r)) = Q a r
Succeeds Q (err e) = ⊥
Succeeds Q stuck = ⊥

-- The buffer is the same, and the cursor has moved on by `n` bytes at least, inside it.
abbrev pub Forward : ℕ → Reader → Reader → Type 0
Forward n r r' = (r'.buf ≡ r.buf) × (r.pos + n ≤ r'.pos) × (r'.pos ≤ length r.buf)

module _ {ℓ κ} {A : Type ℓ} {B : Type κ} where
  pub Sound-bind :
      (P : A → Reader → Type 0) (Q : B → Reader → Type 0) (x : Result (A × Reader))
      (f : A → Parse B)
      → Sound P x
      → ((a : A) (r : Reader) → P a r → Sound Q (f a r))
      → Sound Q (continue x f)
  unfolding Sound
  Sound-bind P Q (ok (a, r)) f p k = k a r p
  Sound-bind P Q (err e) f p k = tt
  Sound-bind P Q stuck f p k = absurd p

  pub Succeeds-bind :
      (P : A → Reader → Type 0) (Q : B → Reader → Type 0) (x : Result (A × Reader))
      (f : A → Parse B)
      → Succeeds P x
      → ((a : A) (r : Reader) → P a r → Succeeds Q (f a r))
      → Succeeds Q (continue x f)
  unfolding Succeeds
  Succeeds-bind P Q (ok (a, r)) f p k = k a r p
  Succeeds-bind P Q (err e) f p k = absurd p
  Succeeds-bind P Q stuck f p k = absurd p

module _ {ℓ} {A : Type ℓ} (Q : A → Reader → Type 0) where
  pub Succeeds-pure : (a : A) (r : Reader) → Q a r → Succeeds Q (ok (a, r))
  unfolding Succeeds
  Succeeds-pure a r q = q

  pub Succeeds-Sound : (x : Result (A × Reader)) → Succeeds Q x → Sound Q x
  unfolding Succeeds Sound
  Succeeds-Sound (ok _) q = q
  Succeeds-Sound (err _) q = tt
  Succeeds-Sound stuck q = q

  pub Sound-pure : (a : A) (r : Reader) → Q a r → Sound Q (ok (a, r))
  unfolding Sound
  Sound-pure a r q = q

  pub Sound-err : (e : WalReaderError) → Sound Q (err e)
  unfolding Sound
  Sound-err e = tt

  -- What follows a guard may use that the guard let it pass.
  pub Sound-reject :
      (b : Bool) (e : WalReaderError) (m : Parse A) (r : Reader)
      → (b ≡ false → Sound Q (m r))
      → Sound Q (continue (reject_if b e r) (λ _. m))
  unfolding Sound reject_if
  Sound-reject true e m r k = tt
  Sound-reject false e m r k = k refl

  pub Sound-if :
      (b : Bool) (m n : Parse A) (r : Reader)
      → (b ≡ true → Sound Q (m r))
      → (b ≡ false → Sound Q (n r))
      → Sound Q ((if b then m else n) r)
  Sound-if true m n r km kn = km refl
  Sound-if false m n r km kn = kn refl

  -- A weaker postcondition.
  pub Sound-weaken :
      (P : A → Reader → Type 0) (x : Result (A × Reader))
      → Sound P x
      → ((a : A) (r : Reader) → P a r → Q a r)
      → Sound Q x
  unfolding Sound
  Sound-weaken P (ok (a, r)) p k = k a r p
  Sound-weaken P (err e) p k = tt
  Sound-weaken P stuck p k = p

  -- What is returned meets the postcondition.
  pub Sound-ok : (x : Result (A × Reader)) (a : A) (r : Reader) → Sound Q x → x ≡ ok (a, r) → Q a r
  unfolding Sound
  Sound-ok (ok (b, s)) a r q e = ground (arith, q)
  Sound-ok (err _) a r q e = cc
  Sound-ok stuck a r q e = cc

  pub Sound-ne-stuck : (x : Result (A × Reader)) → Sound Q x → x ≢ stuck
  unfolding Sound
  Sound-ne-stuck (ok _) q e = cc
  Sound-ne-stuck (err _) q e = cc
  Sound-ne-stuck stuck q e = q

pub Forward-refl : (r : Reader) → r.pos ≤ length r.buf → Forward 0 r r
Forward-refl r h = (refl, omega arith, h)

pub Forward-trans : (n m : ℕ) (r s t : Reader) → Forward n r s → Forward m s t → Forward (n + m) r t
Forward-trans n m r s t f g = ground arith

pub Forward-weaken : (n m : ℕ) (r s : Reader) → m ≤ n → Forward n r s → Forward m r s
Forward-weaken n m r s h f = ground arith

module _ (lsn : ℕ) (r : Reader) where
  pub u8-Sound : Sound (λ _. Forward 1 r) (u8 lsn r)
  unfolding Sound u8
  u8-Sound = ground arith

  pub u16-Sound : Sound (λ _. Forward 2 r) (u16 lsn r)
  unfolding Sound u16
  u16-Sound = ground arith

  pub u32-Sound : Sound (λ _. Forward 4 r) (u32 lsn r)
  unfolding Sound u32
  u32-Sound = ground arith

-- A step of `n` bytes, at `s`, of a parser that was at `r` and has read `k` bytes since.
pub Sound-step {ℓ κ} :
    {A : Type ℓ} {B : Type κ} (n k : ℕ) (Q : B → Reader → Type 0) (x : Result (A × Reader))
    (f : A → Parse B) (r s : Reader)
    → Sound (λ _. Forward n s) x
    → Forward k r s
    → ((a : A) (t : Reader) → Forward (k + n) r t → Sound Q (f a t))
    → Sound Q (continue x f)
Sound-step n k Q x f r s here done go =
    Sound-bind (λ _. Forward n s) Q x f here λ a t now. go a t (Forward-trans k n r s t done now)

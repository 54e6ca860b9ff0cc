-- ===== src/Prelude/Lists.antt =====
-- Lists measured and indexed by native numbers, under the library's names.
use Prim.Native.Nat.{ℕ, zero, suc, ◌+◌, ◌-◌, ◌<◌, ◌≤◌, min}
use mathlib.Core.Path.{◌≡◌, refl, ap, ◌∙◌}
use mathlib.Core.List.{List, [], ◌∷◌, ◌++◌}
use mathlib.Core.Option.{Option, none, some}
use native.Mathlib.Omega.{arith}

module _ {ℓ} {A : Type ℓ} where
  abbrev pub length : List A → ℕ
  length [] = 0
  length (x ∷ xs) = suc (length xs)

  abbrev pub get_elem? : List A → ℕ → Option A
  get_elem? [] i = none
  get_elem? (x ∷ xs) zero = some x
  get_elem? (x ∷ xs) (suc i) = get_elem? xs i

  abbrev pub get_or : List A → ℕ → A → A
  get_or [] i d = d
  get_or (x ∷ xs) zero d = x
  get_or (x ∷ xs) (suc i) d = get_or xs i d

  abbrev pub take : ℕ → List A → List A
  take zero xs = []
  take (suc n) [] = []
  take (suc n) (x ∷ xs) = x ∷ take n xs

  abbrev pub drop : ℕ → List A → List A
  drop zero xs = xs
  drop (suc n) [] = []
  drop (suc n) (x ∷ xs) = drop n xs

  abbrev pub replicate : ℕ → A → List A
  replicate zero a = []
  replicate (suc n) a = a ∷ replicate n a

  abbrev pub All {κ} : (A → Type κ) → List A → Type κ
  All P [] = Unit
  All P (x ∷ xs) = P x × All P xs

module _ {ℓ} {A : Type ℓ} where
  -- The bytes `start .. start + len` of a slice.
  abbrev pub slice : ℕ → ℕ → List A → List A
  slice start len xs = take len (drop start xs)

  pub length-append : (xs ys : List A) → length (xs ++ ys) ≡ length xs + length ys
  length-append [] ys = omega arith
  length-append (x ∷ xs) ys = omega (arith, length-append xs ys)

  pub length-take : (n : ℕ) (xs : List A) → length (take n xs) ≡ min n (length xs)
  length-take zero xs = omega arith
  length-take (suc n) [] = omega arith
  length-take (suc n) (x ∷ xs) = omega (arith, length-take n xs)

  pub length-drop : (n : ℕ) (xs : List A) → length (drop n xs) ≡ length xs - n
  length-drop zero xs = omega arith
  length-drop (suc n) [] = omega arith
  length-drop (suc n) (x ∷ xs) = omega (arith, length-drop n xs)

  pub All-take {κ} : (P : A → Type κ) (n : ℕ) (xs : List A) → All P xs → All P (take n xs)
  All-take P zero xs h = tt
  All-take P (suc n) [] h = tt
  All-take P (suc n) (x ∷ xs) (p, h) = (p, All-take P n xs h)

  pub All-drop {κ} : (P : A → Type κ) (n : ℕ) (xs : List A) → All P xs → All P (drop n xs)
  All-drop P zero xs h = h
  All-drop P (suc n) [] h = tt
  All-drop P (suc n) (x ∷ xs) (p, h) = All-drop P n xs h

  pub All-append {κ} : (P : A → Type κ) (xs ys : List A) → All P xs → All P ys → All P (xs ++ ys)
  All-append P [] ys h k = k
  All-append P (x ∷ xs) ys (p, h) k = (p, All-append P xs ys h k)

module _ {ℓ} {A : Type ℓ} where
  pub take-append : (n : ℕ) (xs ys : List A) → n ≤ length xs → take n (xs ++ ys) ≡ take n xs
  take-append zero xs ys h = refl
  take-append (suc n) [] ys h = absurd (omega arith)
  take-append (suc n) (x ∷ xs) ys h = ap (λ l. x ∷ l) (take-append n xs ys (omega arith))

  pub length-slice :
      (start len : ℕ) (xs : List A) → start + len ≤ length xs → length (slice start len xs) ≡ len
  length-slice start len xs h = omega (arith, length-take len (drop start xs), length-drop start xs)

  pub All-slice {κ} :
      (P : A → Type κ) (start len : ℕ) (xs : List A) → All P xs → All P (slice start len xs)
  All-slice P start len xs h = All-take P len (drop start xs) (All-drop P start xs h)

  -- Taking the length of the front takes the front, and dropping it leaves the rest.
  pub take-append_length : (xs ys : List A) → take (length xs) (xs ++ ys) ≡ xs
  take-append_length [] ys = refl
  take-append_length (x ∷ xs) ys = ap (λ l. x ∷ l) (take-append_length xs ys)

  pub drop-append_length : (xs ys : List A) → drop (length xs) (xs ++ ys) ≡ ys
  drop-append_length [] ys = refl
  drop-append_length (x ∷ xs) ys = drop-append_length xs ys

  pub take-all : (n : ℕ) (xs : List A) → length xs ≤ n → take n xs ≡ xs
  take-all zero [] h = refl
  take-all zero (x ∷ xs) h = absurd (omega arith)
  take-all (suc n) [] h = refl
  take-all (suc n) (x ∷ xs) h = ap (λ l. x ∷ l) (take-all n xs (omega arith))

module _ {ℓ} {A : Type ℓ} where
  -- The sums are variables with an equation, since `suc a + b` does not compute.
  pub take-add : (a b k : ℕ) (xs : List A) → k ≡ a + b → take k xs ≡ take a xs ++ take b (drop a xs)
  take-add zero b k xs e = ap (λ n. take n xs) (omega arith)
  take-add (suc a) b zero xs e = absurd (omega arith)
  take-add (suc a) zero (suc k) [] e = refl
  take-add (suc a) (suc b) (suc k) [] e = refl
  take-add (suc a) b (suc k) (x ∷ xs) e = ap (λ l. x ∷ l) (take-add a b k xs (omega arith))

  pub drop-drop : (a b k : ℕ) (xs : List A) → k ≡ b + a → drop a (drop b xs) ≡ drop k xs
  drop-drop a zero k xs e = ap (λ n. drop n xs) (omega arith)
  drop-drop a (suc b) zero xs e = absurd (omega arith)
  drop-drop zero (suc b) (suc k) [] e = refl
  drop-drop (suc a) (suc b) (suc k) [] e = refl
  drop-drop a (suc b) (suc k) (x ∷ xs) e = drop-drop a b k xs (omega arith)

  pub slice-take :
      (start len bound : ℕ) (xs : List A)
      → start + len ≤ bound
      → take len (drop start (take bound xs)) ≡ take len (drop start xs)
  slice-take zero zero bound xs h = refl
  slice-take zero (suc len) zero xs h = absurd (omega arith)
  slice-take zero (suc len) (suc bound) [] h = refl
  slice-take zero (suc len) (suc bound) (x ∷ xs) h =
      ap (λ l. x ∷ l) (slice-take zero len bound xs (omega arith))
  slice-take (suc start) len zero xs h = absurd (omega arith)
  slice-take (suc start) len (suc bound) [] h = refl
  slice-take (suc start) len (suc bound) (x ∷ xs) h = slice-take start len bound xs (omega arith)

-- A slice of a slice, and two slices side by side.
module _ {ℓ} {A : Type ℓ} where
  pub slice-slice :
      (start len from size : ℕ) (xs : List A)
      → start + len ≤ size
      → slice start len (slice from size xs) ≡ slice (from + start) len xs
  slice-slice start len from size xs h =
      slice-take start len size (drop from xs) h
      ∙ ap (take len) (drop-drop start from (from + start) xs refl)

  pub slice-join :
      (start a b : ℕ) (xs : List A)
      → slice start (a + b) xs ≡ slice start a xs ++ slice (start + a) b xs
  slice-join start a b xs =
      take-add a b (a + b) (drop start xs) refl
      ∙ ap (λ l. take a (drop start xs) ++ take b l) (drop-drop a start (start + a) xs refl)

-- An index below the length is that of an element.
module _ {ℓ} {A : Type ℓ} where
  pub get_elem?-lt : (xs : List A) (i : ℕ) → i < length xs → (x : A) × (get_elem? xs i ≡ some x)
  get_elem?-lt [] i h = absurd (omega arith)
  get_elem?-lt (x ∷ xs) zero h = (x, refl)
  get_elem?-lt (x ∷ xs) (suc i) h = get_elem?-lt xs i (omega arith)

  pub lt-get_elem? : (xs : List A) (i : ℕ) (x : A) → get_elem? xs i ≡ some x → i < length xs
  lt-get_elem? [] i x h = cc
  lt-get_elem? (y ∷ xs) zero x h = omega arith
  lt-get_elem? (y ∷ xs) (suc i) x h = let below = lt-get_elem? xs i x h in omega arith

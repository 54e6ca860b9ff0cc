-- ===== src/Prelude/Slices.antt =====
-- Windows of lists: what `take` and `drop` make of an append and of one another, at any bounds.
use Prim.Native.Nat.{ℕ, zero, suc, ◌+◌, ◌-◌, ◌≤◌, ◌<◌, min}
use mathlib.Core.Path.{◌≡◌, refl, sym, ap, ◌∙◌}
use mathlib.Core.Logic.{inl, inr}
use mathlib.Core.List.{List, [], ◌∷◌, ◌++◌}
use native.Mathlib.Omega.{arith}
use pg_walview.Prelude.Lists.{length, get_elem?, take, drop, slice, length-take}
use pg_walview.Prelude.Tests.{leb, leb→le, Bool-cases}

module _ {ℓ} {A : Type ℓ} where
  pub take-append_any :
      (n m : ℕ) (xs ys : List A) → m ≡ n - length xs → take n (xs ++ ys) ≡ take n xs ++ take m ys
  take-append_any n m [] ys e = ap (λ k. take k ys) {x = n} {y = m} (omega arith) ∙ none_taken n
    where
      none_taken : (k : ℕ) → take m ys ≡ take {A = A} k [] ++ take m ys
      none_taken zero = refl
      none_taken (suc k) = refl
  take-append_any zero m (x ∷ xs) ys e = ap (λ k. take k ys) {x = 0} {y = m} (omega arith)
  take-append_any (suc n) m (x ∷ xs) ys e =
      ap (λ l. x ∷ l) (take-append_any n m xs ys (omega arith))

  pub drop-append_any :
      (n m : ℕ) (xs ys : List A) → m ≡ n - length xs → drop n (xs ++ ys) ≡ drop n xs ++ drop m ys
  drop-append_any n m [] ys e = ap (λ k. drop k ys) {x = n} {y = m} (omega arith) ∙ none_left n
    where
      none_left : (k : ℕ) → drop m ys ≡ drop {A = A} k [] ++ drop m ys
      none_left zero = refl
      none_left (suc k) = refl
  drop-append_any zero m (x ∷ xs) ys e =
      ap (λ k. x ∷ (xs ++ drop k ys)) {x = 0} {y = m} (omega arith)
  drop-append_any (suc n) m (x ∷ xs) ys e = drop-append_any n m xs ys (omega arith)

  pub take-take : (n m k : ℕ) (xs : List A) → k ≡ min n m → take n (take m xs) ≡ take k xs
  take-take zero m zero xs e = refl
  take-take zero m (suc k) xs e = absurd (omega arith)
  take-take (suc n) zero zero xs e = refl
  take-take (suc n) zero (suc k) xs e = absurd (omega arith)
  take-take (suc n) (suc m) zero xs e = absurd (omega arith)
  take-take (suc n) (suc m) (suc k) [] e = refl
  take-take (suc n) (suc m) (suc k) (x ∷ xs) e = ap (λ l. x ∷ l) (take-take n m k xs (omega arith))

  pub drop-take : (n m k : ℕ) (xs : List A) → k ≡ m - n → drop n (take m xs) ≡ take k (drop n xs)
  drop-take zero m k xs e = ap (λ i. take i xs) {x = m} {y = k} (omega arith)
  drop-take (suc n) zero zero xs e = refl
  drop-take (suc n) zero (suc k) xs e = absurd (omega arith)
  drop-take (suc n) (suc m) zero [] e = refl
  drop-take (suc n) (suc m) (suc k) [] e = refl
  drop-take (suc n) (suc m) k (x ∷ xs) e = drop-take n m k xs (omega arith)

  -- A window that ends before it begins is empty.
  pub window_empty : (n m : ℕ) (xs : List A) → m ≤ n → drop n (take m xs) ≡ []
  window_empty zero zero xs h = refl
  window_empty zero (suc m) xs h = absurd (omega arith)
  window_empty (suc n) zero xs h = refl
  window_empty (suc n) (suc m) [] h = refl
  window_empty (suc n) (suc m) (x ∷ xs) h = window_empty n m xs (omega arith)

  -- A window onto two lists side by side is one onto the first and one onto the second.
  pub window-append :
      (a e : ℕ) (xs ys : List A)
      → drop a (take e (xs ++ ys))
        ≡ drop a (take e xs) ++ drop (a - length xs) (take (e - length xs) ys)
  window-append a e xs ys =
      ap (drop a) (take-append_any e (e - length xs) xs ys refl)
      ∙ drop-append_any a (a - length (take e xs)) (take e xs) (take (e - length xs) ys) refl
      ∙ ap (λ l. drop a (take e xs) ++ l) behind
    where
      behind :
          drop (a - length (take e xs)) (take (e - length xs) ys)
          ≡ drop (a - length xs) (take (e - length xs) ys)
      behind = elim (Bool-cases (leb (length xs) e)) [
        | inl over ↦
            ap (λ n. drop (a - n) (take (e - length xs) ys))
              (omega (arith, length-take e xs, leb→le _ _ over))
        | inr short ↦ window_empty _ _ ys (ground arith) ∙ sym (window_empty _ _ ys (ground arith))
      ]

get_elem?-take {ℓ} :
    {A : Type ℓ} (n k : ℕ) (xs : List A) → k < n → get_elem? (take n xs) k ≡ get_elem? xs k
get_elem?-take zero k xs h = absurd (omega arith)
get_elem?-take (suc n) k [] h = refl
get_elem?-take (suc n) zero (x ∷ xs) h = refl
get_elem?-take (suc n) (suc k) (x ∷ xs) h = get_elem?-take n k xs (omega arith)

get_elem?-drop {ℓ} :
    {A : Type ℓ} (n k : ℕ) (xs : List A) → get_elem? (drop n xs) k ≡ get_elem? xs (n + k)
get_elem?-drop zero k xs = ap (get_elem? xs) {x = k} {y = 0 + k} (omega arith)
get_elem?-drop (suc n) k [] = refl
get_elem?-drop (suc n) k (x ∷ xs) =
    get_elem?-drop n k xs ∙ ap (get_elem? (x ∷ xs)) {x = suc (n + k)} {y = suc n + k} (omega arith)

pub get_elem?-slice {ℓ} :
    {A : Type ℓ} (start n k : ℕ) (xs : List A)
    → k < n
    → get_elem? (slice start n xs) k ≡ get_elem? xs (start + k)
get_elem?-slice start n k xs h = get_elem?-take n k (drop start xs) h ∙ get_elem?-drop start k xs

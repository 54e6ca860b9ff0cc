-- ===== src/Tui/App/Search.antt =====
-- What the searches through the record list find.
use pg_walview.Prelude.{
  ℕ, zero, suc, ◌+◌, ◌≤◌, ◌<◌, ◌≡◌, ◌∙◌, sym, ap, Bool, true, false, Option, none, some, ==→eq,
  ◌==◌, arith, Bool-cases, inl, inr, ◌⊎◌,
}
use pg_walview.Tui.App.{find_from, find_below}

-- The least index from `start` on that passes the test, or none before `start + count` does.
abbrev pub IsFirst : (ℕ → Bool) → ℕ → ℕ → Option ℕ → Type 0
IsFirst p start end none = (j : ℕ) → start ≤ j → j < end → p j ≡ false
IsFirst p start end (some i) =
    (start ≤ i) × (i < end) × (p i ≡ true) × ((j : ℕ) → start ≤ j → j < i → p j ≡ false)

-- The greatest index below `end` that passes the test, or none does.
abbrev pub IsLast : (ℕ → Bool) → ℕ → Option ℕ → Type 0
IsLast p end none = (j : ℕ) → j < end → p j ≡ false
IsLast p end (some i) = (i < end) × (p i ≡ true) × ((j : ℕ) → i < j → j < end → p j ≡ false)

at_start :
    (p : ℕ → Bool) (start j : ℕ) → p start ≡ false → start ≤ j → (start + 1 ≤ j) ⊎ (p j ≡ false)
at_start p start j e h = elim (Bool-cases (start == j)) [
  | inl same ↦ inr (ap p (sym (==→eq start j same)) ∙ e)
  | inr differ ↦ inl (ground arith)
]

from_next :
    (p : ℕ → Bool) (start end : ℕ) (o : Option ℕ)
    → p start ≡ false
    → IsFirst p (start + 1) end o
    → IsFirst p start end o
from_next p start end none e h = λ j from below. elim (at_start p start j e from) [
  | inl later ↦ h j later below
  | inr fails ↦ fails
]
from_next p start end (some i) e (from, below, here, before) = (
  omega arith,
  below,
  here,
  λ j from' below'. elim (at_start p start j e from') [
    | inl later ↦ before j later below'
    | inr fails ↦ fails
  ],
)

pub find_from-IsFirst :
    (p : ℕ → Bool) (start count end : ℕ)
    → end ≡ start + count
    → IsFirst p start end (find_from p start count)
unfolding find_from
find_from-IsFirst p start zero end e = λ j from below. absurd (omega arith)
find_from-IsFirst p start (suc count) end e = elim (Bool-cases (p start)) [
  | inl here ↦ rw here ((omega arith, omega arith, here, λ j from below. absurd (omega arith)))
  | inr fails ↦
      rw fails
        (from_next p start end _ fails (find_from-IsFirst p (start + 1) count end (omega arith)))
]

below_greatest :
    (p : ℕ → Bool) (n : ℕ) (o : Option ℕ) → p n ≡ false → IsLast p n o → IsLast p (suc n) o
below_greatest p n none e h = λ j below. elim (Bool-cases (n == j)) [
  | inl same ↦ ap p (sym (==→eq n j same)) ∙ e
  | inr differ ↦ h j (ground arith)
]
below_greatest p n (some i) e (below, here, after) = (
  omega arith,
  here,
  λ j above below'. elim (Bool-cases (n == j)) [
    | inl same ↦ ap p (sym (==→eq n j same)) ∙ e
    | inr differ ↦ after j above (ground arith)
  ],
)

pub find_below-IsLast : (p : ℕ → Bool) (end : ℕ) → IsLast p end (find_below p end)
unfolding find_below
find_below-IsLast p zero = λ j below. absurd (omega arith)
find_below-IsLast p (suc n) = elim (Bool-cases (p n)) [
  | inl here ↦ rw here ((omega arith, here, λ j above below. absurd (omega arith)))
  | inr fails ↦ rw fails (below_greatest p n _ fails (find_below-IsLast p n))
]

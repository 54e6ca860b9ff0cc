-- ===== src/Tui/App/SameXid.antt =====
-- The jumps between the records of one transaction, and the extent of it in the list.
use pg_walview.Prelude.{
  ℕ, ◌+◌, ◌≤◌, ◌<◌, ◌≡◌, ◌≢◌, ◌∙◌, refl, sym, Bool, true, false, Option, none, some, List, length,
  get_elem?, lt-get_elem?, ◌==◌, arith, Bool-cases, Option-cases, inl, inr, ==→eq, leb, leb→le,
}
use mathlib.Core.Option
use pg_walview.Walreader.Types.{WalRecordInfo}
use pg_walview.Tui.App.{
  TableStates, App, has_xid, zip, xid_range_of, normal_xid_at, next_same_xid, prev_same_xid,
}
use pg_walview.Tui.App.Search.{IsFirst, IsLast, find_from-IsFirst, find_below-IsLast}

normal_xid_at-lt :
    (t : TableStates) (app : App t) (idx xid : ℕ)
    → normal_xid_at t app idx ≡ some xid
    → idx < length app.records
unfolding normal_xid_at Option.bind
normal_xid_at-lt t app idx xid h = elim (Option-cases (get_elem? app.records idx)) [
  | inl e ↦ absurd (ground arith)
  | inr (info, e) ↦ lt-get_elem? app.records idx info e
]

-- For a selected record of a real transaction, the jump forward goes to the nearest later record of
-- the same transaction, the jump back to the nearest earlier one; each finds none if there is none.
pub same_xid-nearest :
    (t : TableStates) (app : App t) (idx xid : ℕ)
    → t.selected app.state ≡ some idx
    → normal_xid_at t app idx ≡ some xid
    → IsFirst (has_xid app.records xid) (idx + 1) (length app.records) (next_same_xid t app)
      × IsLast (has_xid app.records xid) idx (prev_same_xid t app)
unfolding next_same_xid prev_same_xid Option.bind
same_xid-nearest t app idx xid sel normal =
    let inside = normal_xid_at-lt t app idx xid normal in
    rw (sel, normal)
      (
        find_from-IsFirst (has_xid app.records xid) (idx + 1) _ (length app.records) (omega arith),
        find_below-IsLast (has_xid app.records xid) idx,
      )

true-ne-false : true ≢ false
true-ne-false h = cc

not-below :
    (first j : ℕ) (p : ℕ → Bool)
    → ((k : ℕ) → 0 ≤ k → k < first → p k ≡ false)
    → p j ≡ true
    → first ≤ j
not-below first j p before here = elim (Bool-cases (leb first j)) [
  | inl e ↦ leb→le first j e
  | inr e ↦ absurd (true-ne-false (sym here ∙ before j (omega arith) (ground arith)))
]

not-above :
    (last len j : ℕ) (p : ℕ → Bool)
    → ((k : ℕ) → last < k → k < len → p k ≡ false)
    → j < len
    → p j ≡ true
    → j ≤ last
not-above last len j p after small here = elim (Bool-cases (leb j last)) [
  | inl e ↦ leb→le j last e
  | inr e ↦ absurd (true-ne-false (sym here ∙ after j (ground arith) small))
]

zip-bounds :
    (p : ℕ → Bool) (len idx : ℕ) (a b : Option ℕ)
    → idx < len
    → p idx ≡ true
    → IsFirst p 0 len a
    → IsLast p len b
    → (first : ℕ) × (last : ℕ) × (zip a b ≡ some (first, last))
      × (p first ≡ true)
      × (p last ≡ true)
      × (first ≤ idx)
      × (idx ≤ last)
zip-bounds p len idx none b inside here none_first last =
    absurd (true-ne-false (sym here ∙ none_first idx (omega arith) inside))
zip-bounds p len idx (some first) none inside here is_first none_last =
    absurd (true-ne-false (sym here ∙ none_last idx inside))
zip-bounds p len idx (some first) (some last) inside here (from, below, at_first, before)
      (top, at_last, after) =
    (
      first,
      last,
      refl,
      at_first,
      at_last,
      not-below first idx p before here,
      not-above last len idx p after inside here,
    )

-- The extent that is shown for a transaction reaches over every record of it: its ends are records of
-- the transaction, and a record of it at `idx` lies between them.
pub xid_range_of-covers :
    (records : List WalRecordInfo) (xid idx : ℕ)
    → xid ≢ 0
    → idx < length records
    → has_xid records xid idx ≡ true
    → (first : ℕ) × (last : ℕ) × (xid_range_of records xid ≡ some (first, last))
      × (has_xid records xid first ≡ true)
      × (has_xid records xid last ≡ true)
      × (first ≤ idx)
      × (idx ≤ last)
unfolding xid_range_of
xid_range_of-covers records xid idx real inside here = elim (Bool-cases (xid == 0)) [
  | inl e ↦ absurd (real (==→eq xid 0 e))
  | inr e ↦ rw e (
      zip-bounds (has_xid records xid) (length records) idx _ _ inside here
        (find_from-IsFirst (has_xid records xid) 0 (length records) (length records) (omega arith))
        (find_below-IsLast (has_xid records xid) (length records)))
]

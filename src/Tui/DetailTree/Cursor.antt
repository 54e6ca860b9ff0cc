-- ===== src/Tui/DetailTree/Cursor.antt =====
-- The cursor of the tree names an item, whatever is moved or toggled.
use pg_walview.Prelude.{
  ℕ, zero, suc, ◌+◌, ◌<◌, ◌≡◌, ◌≢◌, ◌∙◌, refl, ap, Bool, true, false, ◌&&◌, Option, none, some,
  List, [], ◌∷◌, length, get_elem?, ltb, ltb→lt, get_elem?-lt, lt-get_elem?, if◌then◌else◌, arith,
  Bool-cases, inl, inr,
}
use mathlib.Core.Path.{subst}
use pg_walview.Walreader.Types.{WalBlockData}
use pg_walview.Tui.DetailTree.{
  NavItem, nav_header, nav_block, nav_block_fpi, nav_main_data, BlockState, DetailTree, has_image,
  block_items, nav_items, move_up, move_down, modify, toggle_block, toggle_fpi, toggle_item, toggle,
}

abbrev block_of : Option NavItem → ℕ
block_of (some (nav_block i)) = i
block_of o = 0

-- An image below the block, if it is shown, moves the later items together.
behind_image :
    (shown : Bool) (i j at k : ℕ) (items : List NavItem) (items' : ℕ → List NavItem)
    → ((k' : ℕ)
        → get_elem? items k' ≡ some (nav_block at)
        → (n : ℕ) × (at ≡ j + n) × (get_elem? (items' n) k' ≡ some (nav_block at)))
    → get_elem? (if shown then nav_block_fpi i ∷ items else items) k ≡ some (nav_block at)
    → (n : ℕ) × (at ≡ j + n)
      × (get_elem? (if shown then nav_block_fpi i ∷ items' n else items' n) k ≡ some (nav_block at))
behind_image true i j at zero items items' ih h = cc
behind_image true i j at (suc k) items items' ih h = ih k h
behind_image false i j at k items items' ih h = ih k h

module _ (blocks : List WalBlockData) (rest : List NavItem) where
  -- The block that an item names is there, and toggling it leaves the item where it is.
  toggle_block-kept :
      (i : ℕ) (states : List BlockState) (k at : ℕ)
      → ((k j : ℕ) → get_elem? rest k ≢ some (nav_block j))
      → get_elem? (block_items blocks i states rest) k ≡ some (nav_block at)
      → (n : ℕ) × (at ≡ i + n)
        × (get_elem? (block_items blocks i (modify n toggle_block states) rest) k
            ≡ some (nav_block at))
  unfolding block_items modify
  toggle_block-kept i [] k at other h = absurd (other k at h)
  toggle_block-kept i ((true, fpi_expanded) ∷ states) zero at other h =
      (0, omega (arith, ap block_of h), h)
  toggle_block-kept i ((false, fpi_expanded) ∷ states) zero at other h =
      (0, omega (arith, ap block_of h), h)
  toggle_block-kept i ((expanded, fpi_expanded) ∷ states) (suc k) at other h =
      let (n, eq, kept) =
        behind_image (expanded && has_image blocks i) i (i + 1) at k
          (block_items blocks (i + 1) states rest)
          (λ n. block_items blocks (i + 1) (modify n toggle_block states) rest)
          (λ k' h'. toggle_block-kept (i + 1) states k' at other h') h in
      (suc n, omega (arith, eq), kept)

  -- Whether an image is expanded does not change the items.
  block_items-toggle_fpi :
      (i n : ℕ) (states : List BlockState)
      → block_items blocks i (modify n toggle_fpi states) rest ≡ block_items blocks i states rest
  unfolding block_items modify
  block_items-toggle_fpi i n [] = refl
  block_items-toggle_fpi i zero ((expanded, fpi_expanded) ∷ states) = refl
  block_items-toggle_fpi i (suc n) ((expanded, fpi_expanded) ∷ states) =
      ap
        (λ items.
          nav_block i ∷ (if expanded && has_image blocks i then nav_block_fpi i ∷ items else items))
        (block_items-toggle_fpi (i + 1) n states)

main_items-ne-block :
    (has_main : Bool) (k j : ℕ)
    → get_elem? (if has_main then nav_main_data ∷ [] else []) k ≢ some (nav_block j)
main_items-ne-block true zero j = λ e. cc
main_items-ne-block true (suc k) j = λ e. cc
main_items-ne-block false k j = λ e. cc

toggle_block_item :
    (blocks : List WalBlockData) (has_main : Bool) (states : List BlockState) (k at : ℕ)
    → let rest = if has_main then nav_main_data ∷ [] else [] in
      get_elem? (nav_header ∷ block_items blocks 0 states rest) k ≡ some (nav_block at)
      → get_elem? (nav_header ∷ block_items blocks 0 (modify at toggle_block states) rest) k
        ≡ some (nav_block at)
toggle_block_item blocks has_main states zero at h = cc
toggle_block_item blocks has_main states (suc k) at h =
    let rest = if has_main then nav_main_data ∷ [] else [] in
    let (n, eq, kept) =
      toggle_block-kept blocks rest 0 states k at (main_items-ne-block has_main) h in
    let same : n ≡ at = omega (arith, eq) in
    subst
      (λ m.
        get_elem? (block_items blocks 0 (modify m toggle_block states) rest) k
        ≡ some (nav_block at))
      same kept

toggle_item-kept :
    (blocks : List WalBlockData) (has_main : Bool) (tree : DetailTree) (item : Option NavItem)
    → get_elem? (nav_items tree blocks has_main) tree.cursor ≡ item
    → get_elem? (nav_items (toggle_item item tree) blocks has_main) tree.cursor ≡ item
unfolding nav_items
toggle_item-kept blocks has_main tree none h = h
toggle_item-kept blocks has_main tree (some nav_header) h = h
toggle_item-kept blocks has_main tree (some nav_main_data) h = h
toggle_item-kept blocks has_main tree (some (nav_block_fpi i)) h =
    ap (λ items. get_elem? (nav_header ∷ items) tree.cursor)
      (block_items-toggle_fpi blocks _ 0 i tree.block_states)
    ∙ h
toggle_item-kept blocks has_main tree (some (nav_block i)) h =
    toggle_block_item blocks has_main tree.block_states tree.cursor i h

toggle_item-cursor :
    (item : Option NavItem) (tree : DetailTree) → (toggle_item item tree).cursor ≡ tree.cursor
toggle_item-cursor none tree = refl
toggle_item-cursor (some nav_header) tree = refl
toggle_item-cursor (some (nav_block i)) tree = refl
toggle_item-cursor (some (nav_block_fpi i)) tree = refl
toggle_item-cursor (some nav_main_data) tree = refl

-- Toggling leaves the cursor where it is, and on the item that it toggled, though items below may
-- come or go.
pub toggle-cursor :
    (blocks : List WalBlockData) (has_main : Bool) (tree : DetailTree)
    → ((toggle blocks has_main tree).cursor ≡ tree.cursor)
      × (get_elem? (nav_items (toggle blocks has_main tree) blocks has_main) tree.cursor
          ≡ get_elem? (nav_items tree blocks has_main) tree.cursor)
unfolding toggle
toggle-cursor blocks has_main tree =
    let item = get_elem? (nav_items tree blocks has_main) tree.cursor in
    (toggle_item-cursor item tree, toggle_item-kept blocks has_main tree item refl)

length-modify {ℓ} :
    {A : Type ℓ} (i : ℕ) (f : A → A) (xs : List A) → length (modify i f xs) ≡ length xs
unfolding modify
length-modify i f [] = refl
length-modify zero f (x ∷ xs) = refl
length-modify (suc i) f (x ∷ xs) = ap suc (length-modify i f xs)

toggle_item-block_states :
    (item : Option NavItem) (tree : DetailTree)
    → length (toggle_item item tree).block_states ≡ length tree.block_states
toggle_item-block_states none tree = refl
toggle_item-block_states (some nav_header) tree = refl
toggle_item-block_states (some (nav_block i)) tree = length-modify i _ tree.block_states
toggle_item-block_states (some (nav_block_fpi i)) tree = length-modify i _ tree.block_states
toggle_item-block_states (some nav_main_data) tree = refl

-- The tree has a state for each block, and its cursor is on an item.
pub record IsTree (blocks : List WalBlockData) (has_main : Bool) (tree : DetailTree) : Type 0 where
  pub states : length tree.block_states ≡ length blocks
  pub cursor_on : tree.cursor < length (nav_items tree blocks has_main)

module _ (blocks : List WalBlockData) (has_main : Bool) (tree : DetailTree) where
  pub move_up-IsTree : IsTree blocks has_main tree → IsTree blocks has_main (move_up tree)
  unfolding move_up nav_items
  move_up-IsTree t = elim (Bool-cases (ltb 0 tree.cursor)) [
    | inl e ↦ rw e (record { states = t.states; cursor_on = omega (arith, t.cursor_on) })
    | inr e ↦ rw e t
  ]

  pub move_down-IsTree :
      IsTree blocks has_main tree → IsTree blocks has_main (move_down blocks has_main tree)
  unfolding move_down nav_items
  move_down-IsTree t =
      elim (Bool-cases (ltb (tree.cursor + 1) (length (nav_items tree blocks has_main)))) [
        | inl e ↦ rw e (record { states = t.states; cursor_on = ltb→lt _ _ e })
        | inr e ↦ rw e t
      ]

  pub toggle-IsTree :
      IsTree blocks has_main tree → IsTree blocks has_main (toggle blocks has_main tree)
  unfolding toggle
  toggle-IsTree t =
      let (same, kept) = toggle-cursor blocks has_main tree in
      let (item, found) = get_elem?-lt (nav_items tree blocks has_main) tree.cursor t.cursor_on in
      record {
        states =
            toggle_item-block_states (get_elem? (nav_items tree blocks has_main) tree.cursor) tree
            ∙ t.states;
        cursor_on =
            let below = lt-get_elem? _ tree.cursor item (kept ∙ found) in
            omega (arith, same, below);
      }

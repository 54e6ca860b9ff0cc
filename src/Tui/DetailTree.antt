-- ===== src/Tui/DetailTree.antt =====
-- `DetailTree` of src/main.rs: what the accordion of the DETAILS pane shows, and its cursor.
pub mod Cursor
use pg_walview.Prelude.{
  ℕ, zero, suc, ◌+◌, ◌-◌, Bool, true, false, not, ◌&&◌, Option, none, some, List, [], ◌∷◌, ◌++◌,
  length, get_elem?, replicate, ltb, if◌then◌else◌,
}
use pg_walview.Walreader.Types.{
  WalBlockData, WalRecordInfo, RecordPart, header, fpi, block_data, main_data,
}

pub data NavItem : Type 0 where
  nav_header : NavItem
  nav_block : ℕ → NavItem
  nav_block_fpi : ℕ → NavItem
  nav_main_data : NavItem

-- `(block_expanded, fpi_expanded)`
abbrev pub BlockState : Type 0
BlockState = Bool × Bool

pub record DetailTree : Type 0 where
  pub header_expanded : Bool
  pub block_states : List BlockState
  pub main_expanded : Bool
  pub cursor : ℕ

abbrev pub default : DetailTree
default = record { header_expanded = false; block_states = []; main_expanded = false; cursor = 0 }

-- `Option::is_some`
abbrev pub is_some {ℓ} : {A : Type ℓ} → Option A → Bool
is_some none = false
is_some (some a) = true

-- `has_main_data`
unfoldable pub has_main_data : WalRecordInfo → Bool
has_main_data info = is_some info.main_range

unfoldable pub new_for : WalRecordInfo → DetailTree
new_for info = record {
  header_expanded = false;
  block_states = replicate (length info.blocks) (false, false);
  main_expanded = false;
  cursor = 0;
}

-- `i < blocks.len() && blocks[i].image.is_some()`
unfoldable pub has_image : List WalBlockData → ℕ → Bool
has_image blocks i = elim (get_elem? blocks i) [ none ↦ false | some block ↦ is_some block.image ]

-- The loop of `nav_items` from block number `i` on, then the items `rest`.
unfoldable pub block_items : List WalBlockData → ℕ → List BlockState → List NavItem → List NavItem
block_items blocks i [] rest = rest
block_items blocks i ((expanded, fpi_expanded) ∷ states) rest =
    let items = block_items blocks (i + 1) states rest in
    nav_block i ∷ (if expanded && has_image blocks i then nav_block_fpi i ∷ items else items)

unfoldable pub nav_items : DetailTree → List WalBlockData → Bool → List NavItem
nav_items tree blocks has_main =
    nav_header
    ∷ block_items blocks 0 tree.block_states (if has_main then nav_main_data ∷ [] else [])

abbrev pub parts_of : Option NavItem → List RecordPart
parts_of (some nav_header) = header ∷ []
parts_of (some (nav_block i)) = fpi i ∷ block_data i ∷ []
parts_of (some (nav_block_fpi i)) = fpi i ∷ []
parts_of (some nav_main_data) = main_data ∷ []
parts_of none = []

unfoldable pub focused_parts : DetailTree → WalRecordInfo → List RecordPart
focused_parts tree info =
    parts_of (get_elem? (nav_items tree info.blocks (has_main_data info)) tree.cursor)

unfoldable pub move_up : DetailTree → DetailTree
move_up tree = if ltb 0 tree.cursor then record tree { cursor = tree.cursor - 1 } else tree

unfoldable pub move_down : List WalBlockData → Bool → DetailTree → DetailTree
move_down blocks has_main tree =
    if ltb (tree.cursor + 1) (length (nav_items tree blocks has_main))
    then record tree { cursor = tree.cursor + 1 }
    else tree

-- An assignment to `block_states[i]`; the items of `nav_items` name blocks that there are.
unfoldable pub modify {ℓ} : {A : Type ℓ} → ℕ → (A → A) → List A → List A
modify i f [] = []
modify zero f (x ∷ xs) = f x ∷ xs
modify (suc i) f (x ∷ xs) = x ∷ modify i f xs

-- The image of a block collapses with the block.
abbrev pub toggle_block : BlockState → BlockState
toggle_block (expanded, fpi_expanded) = if expanded then (false, false) else (true, fpi_expanded)

abbrev pub toggle_fpi : BlockState → BlockState
toggle_fpi (expanded, fpi_expanded) = (expanded, not fpi_expanded)

abbrev pub toggle_item : Option NavItem → DetailTree → DetailTree
toggle_item none tree = tree
toggle_item (some nav_header) tree = record tree { header_expanded = not tree.header_expanded }
toggle_item (some (nav_block i)) tree = record tree {
  block_states = modify i toggle_block tree.block_states;
}
toggle_item (some (nav_block_fpi i)) tree = record tree {
  block_states = modify i toggle_fpi tree.block_states;
}
toggle_item (some nav_main_data) tree = record tree { main_expanded = not tree.main_expanded }

unfoldable pub toggle : List WalBlockData → Bool → DetailTree → DetailTree
toggle blocks has_main tree =
    toggle_item (get_elem? (nav_items tree blocks has_main) tree.cursor) tree

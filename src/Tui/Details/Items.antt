-- ===== src/Tui/Details/Items.antt =====
-- The line of the accordion that the cursor is on.
use pg_walview.Prelude.{
  ℕ, zero, suc, ◌+◌, ◌≤◌, ◌<◌, ◌≡◌, ◌∙◌, refl, sym, ap, Bool, true, false, not, ◌&&◌, Option, none,
  some, List, [], ◌∷◌, ◌++◌, All, length, get_elem?, get_elem?-lt, ◌==◌, if◌then◌else◌, arith,
  Bool-cases, inl, inr,
}
use mathlib.Core.Path.{subst}
use pg_walview.Walreader.Types.{
  WalFullPageImage, WalBlockData, WalRecordInfo, RecordPart, header, fpi, block_data, main_data,
}
use pg_walview.Tui.DetailTree.{
  NavItem, nav_header, nav_block, nav_block_fpi, nav_main_data, BlockState, DetailTree, is_some,
  has_main_data, has_image, block_items, nav_items,
}
use pg_walview.Tui.DetailTree.Cursor.{IsTree}
use pg_walview.Tui.App.{is_empty}
use pg_walview.Tui.Details.{
  DetailLine, item_line, Descriptions, item_lines, image_item, image_of, append_items,
  build_detail_lines,
}

get_elem?-append_left {ℓ} :
    {A : Type ℓ} (xs ys : List A) (k : ℕ) (x : A)
    → get_elem? xs k ≡ some x
    → get_elem? (xs ++ ys) k ≡ some x
get_elem?-append_left [] ys k x h = absurd (cc)
get_elem?-append_left (y ∷ xs) ys zero x h = h
get_elem?-append_left (y ∷ xs) ys (suc k) x h = get_elem?-append_left xs ys k x h

get_elem?-append_length {ℓ} :
    {A : Type ℓ} (xs : List A) (y : A) (ys : List A) → get_elem? (xs ++ y ∷ ys) (length xs) ≡ some y
get_elem?-append_length [] y ys = refl
get_elem?-append_length (x ∷ xs) y ys = get_elem?-append_length xs y ys

both : (b a : Bool) → (a && b) ≡ true → b ≡ true
both b true h = h
both b false h = absurd (cc)

and_true : (a b : Bool) → b ≡ true → (a && b) ≡ a
and_true true b h = h
and_true false b h = refl

-- An item names a block that there is, and an image that the block has.
abbrev Names : List WalBlockData → ℕ → NavItem → Type 0
Names blocks n nav_header = Unit
Names blocks n (nav_block i) = i < n
Names blocks n (nav_block_fpi i) = (i < n) × (has_image blocks i ≡ true)
Names blocks n nav_main_data = Unit

block_items-Names :
    (blocks : List WalBlockData) (i n : ℕ) (states : List BlockState) (rest : List NavItem)
    → i + length states ≤ n
    → All (Names blocks n) rest
    → All (Names blocks n) (block_items blocks i states rest)
unfolding block_items
block_items-Names blocks i n [] rest h all = all
block_items-Names blocks i n ((expanded, fpi_expanded) ∷ states) rest h all =
    let later = block_items-Names blocks (i + 1) n states rest (omega arith) all in
    elim (Bool-cases (expanded && has_image blocks i)) [
      | inl e ↦ rw e (omega arith, ((omega arith, both (has_image blocks i) expanded e), later))
      | inr e ↦ rw e (omega arith, later)
    ]

get_elem?-All {ℓ κ} :
    {A : Type ℓ} (P : A → Type κ) (xs : List A) (k : ℕ) (x : A)
    → All P xs
    → get_elem? xs k ≡ some x
    → P x
get_elem?-All P [] k x all h = absurd (cc)
get_elem?-All P (y ∷ xs) zero x (p, all) h = let same : y ≡ x = cc in subst P same p
get_elem?-All P (y ∷ xs) (suc k) x (p, all) h = get_elem?-All P xs k x all h

-- The part that an item stands for.
abbrev pub part_of : NavItem → RecordPart
part_of nav_header = header
part_of (nav_block i) = block_data i
part_of (nav_block_fpi i) = fpi i
part_of nav_main_data = main_data

-- The line at the cursor's place.
abbrev pub LineAt : List DetailLine × ℕ → DetailLine → Type 0
LineAt (lines, cursor_line) line = get_elem? lines cursor_line ≡ some line

module _ (d : Descriptions) (tree : DetailTree) (info : WalRecordInfo) where
  -- Lines that begin with the heading of a part.
  abbrev Opens : RecordPart → Bool → List DetailLine → Type 0
  Opens p is_cursor lines =
      (expanded : Bool) × (below : List DetailLine) × (lines
        ≡ item_line p expanded is_cursor ∷ below)

  image_item-Opens :
      (i : ℕ) (image : Option WalFullPageImage) (state : Option BlockState) (is_cursor : Bool)
      (s : BlockState)
      → is_some image ≡ true
      → state ≡ some s
      → Opens (fpi i) is_cursor (image_item d tree info i image state is_cursor)
  image_item-Opens i none state is_cursor s h e = absurd (cc)
  image_item-Opens i (some image) none is_cursor s h e = absurd (cc)
  image_item-Opens i (some image) (some (expanded, fpi_expanded)) is_cursor s h e = (_, _, refl)

  has_image-image_of :
      (block : Option WalBlockData)
      → elim block [ none ↦ false | some b ↦ is_some b.image ] ≡ true
      → is_some (image_of block) ≡ true
  has_image-image_of none h = h
  has_image-image_of (some block) h = h

  item_lines-Opens :
      (item : NavItem) (is_cursor : Bool)
      → length tree.block_states ≡ length info.blocks
      → Names info.blocks (length tree.block_states) item
      → Opens (part_of item) is_cursor (item_lines d tree info item is_cursor)
  unfolding item_lines has_image
  item_lines-Opens nav_header is_cursor same h = (_, _, refl)
  item_lines-Opens (nav_block i) is_cursor same h =
      let (state, e) = get_elem?-lt tree.block_states i h in
      let (block, f) = get_elem?-lt info.blocks i (omega (arith, same, h)) in rw (e, f) (_, _, refl)
  item_lines-Opens (nav_block_fpi i) is_cursor same (h, image) =
      let (state, e) = get_elem?-lt tree.block_states i h in
      image_item-Opens i (image_of (get_elem? info.blocks i)) (get_elem? tree.block_states i)
        is_cursor state (has_image-image_of (get_elem? info.blocks i) image) e
  item_lines-Opens nav_main_data is_cursor same h = (_, _, refl)

  -- A round of the loop, for the lines of the item and whether the cursor is on it.
  abbrev round :
      Bool → List NavItem → ℕ → List DetailLine → ℕ → List DetailLine → Bool → List DetailLine × ℕ
  round show_cursor items n lines cursor_line own at_cursor =
      append_items d tree info show_cursor items (n + 1) (lines ++ own)
        (if at_cursor && not (is_empty own) then length lines else cursor_line)

  -- What is appended leaves the lines before it where they are.
  append_items-kept :
      (show_cursor : Bool) (items : List NavItem) (n : ℕ) (lines : List DetailLine)
      (cursor_line : ℕ) (line : DetailLine)
      → tree.cursor < n
      → get_elem? lines cursor_line ≡ some line
      → LineAt (append_items d tree info show_cursor items n lines cursor_line) line
  unfolding append_items
  append_items-kept show_cursor [] n lines cursor_line line past at = at
  append_items-kept show_cursor (item ∷ items) n lines cursor_line line past at =
      let differ : (n == tree.cursor) ≡ false = ground arith in
      let own = item_lines d tree info item (show_cursor && (n == tree.cursor)) in
      subst (λ (b : Bool). LineAt (round show_cursor items n lines cursor_line own b) line)
        (sym differ)
        (append_items-kept show_cursor items (n + 1) (lines ++ own) cursor_line line (omega arith)
          (get_elem?-append_left lines own cursor_line line at))

  append_items-cursor :
      (show_cursor : Bool) (items : List NavItem) (n k : ℕ) (lines : List DetailLine)
      (cursor_line : ℕ) (item : NavItem) (heading : DetailLine) (below : List DetailLine)
      → tree.cursor ≡ n + k
      → get_elem? items k ≡ some item
      → item_lines d tree info item show_cursor ≡ heading ∷ below
      → LineAt (append_items d tree info show_cursor items n lines cursor_line) heading
  unfolding append_items
  append_items-cursor show_cursor [] n k lines cursor_line item heading below at found begins =
      absurd (cc)
  append_items-cursor show_cursor (first ∷ items) n zero lines cursor_line item heading below at
        found begins =
      let same : (n == tree.cursor) ≡ true = ground arith in
      let this : first ≡ item = cc in
      let shown = and_true show_cursor (n == tree.cursor) same in
      let past : tree.cursor < n + 1 = omega (arith, at) in
      let own : item_lines d tree info first (show_cursor && (n == tree.cursor)) ≡ heading ∷ below =
        ap (λ (x : NavItem). item_lines d tree info x (show_cursor && (n == tree.cursor))) this
        ∙ ap (item_lines d tree info item) shown
        ∙ begins in
      subst
        (λ (l : List DetailLine).
          LineAt (round show_cursor items n lines cursor_line l (n == tree.cursor)) heading)
        (sym own)
        (subst
          (λ (b : Bool).
            LineAt (round show_cursor items n lines cursor_line (heading ∷ below) b) heading)
          (sym same)
          (append_items-kept show_cursor items (n + 1) (lines ++ heading ∷ below) (length lines)
            heading past (get_elem?-append_length lines heading below)))
  append_items-cursor show_cursor (first ∷ items) n (suc k) lines cursor_line item heading below at
        found begins =
      append_items-cursor show_cursor items (n + 1) k _ _ item heading below (omega arith) found
        begins

  nav_items-Names :
      All
        (Names info.blocks (length tree.block_states))
        (nav_items tree info.blocks (has_main_data info))
  unfolding nav_items
  nav_items-Names = (
    tt,
    block_items-Names info.blocks 0 (length tree.block_states) tree.block_states _ (omega arith)
        (main_item-Names (has_main_data info)),
  )
    where
      main_item-Names :
          (b : Bool)
          → All
              (Names info.blocks (length tree.block_states))
              (if b then nav_main_data ∷ [] else [])
      main_item-Names true = (tt, tt)
      main_item-Names false = tt

  -- Where the cursor of the tree is on an item, the line reported is the heading of that item, with
  -- the highlight if one is asked for.
  pub build_detail_lines-cursor :
      (show_cursor : Bool) (item : NavItem)
      → IsTree info.blocks (has_main_data info) tree
      → get_elem? (nav_items tree info.blocks (has_main_data info)) tree.cursor ≡ some item
      → (expanded : Bool) × LineAt
          (build_detail_lines d tree info show_cursor)
          (item_line (part_of item) expanded show_cursor)
  unfolding build_detail_lines
  build_detail_lines-cursor show_cursor item is_tree at =
      let start : tree.cursor ≡ 0 + tree.cursor = omega arith in
      let named =
        get_elem?-All (Names info.blocks (length tree.block_states)) _ tree.cursor item
          nav_items-Names at in
      let (expanded, below, begins) = item_lines-Opens item show_cursor is_tree.states named in
      (expanded, append_items-cursor show_cursor _ 0 tree.cursor [] 0 item _ below start at begins)

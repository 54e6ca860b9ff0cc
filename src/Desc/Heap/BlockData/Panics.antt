-- ===== src/Desc/Heap/BlockData/Panics.antt =====
-- When the description of an update's block data panics.
use pg_walview.Prelude.Digits.{codes}
use pg_walview.Prelude.{
  ℕ, ◌+◌, ◌*◌, ◌≤◌, ◌<◌, ◌≡◌, ◌↔◌, ◌⊎◌, ◌∙◌, refl, sym, ap, Bool, true, false, none, some, List, [],
  length, drop, get_elem?, get_elem?-lt, lt-get_elem?, leb, le→ltb, leb→le, if◌then◌else◌, has_bits,
  arith, Bool-cases, Option-cases, inl, inr,
}
use pg_walview.Desc.Reading.{Text}
use pg_walview.Desc.Heap.{update, hot_update, from_xl_info}
use pg_walview.Walreader.Types.{WalRecordInfo}
use pg_walview.Walreader.Record.{main_data_of}
use pg_walview.Desc.Heap.Total.{parse_xl_heap_header-some}
use pg_walview.Desc.Heap.BlockData.{
  ◌>>=◌, u16_at, length_line, tuple_lines, update_block, update_flags, describe_heap_block_data,
}

-- The bytes that a flag asks for.
abbrev pub asked : Bool → ℕ
asked b = if b then 2 else 0

u16_at-some : (bytes : List ℕ) (i : ℕ) → i + 2 ≤ length bytes → (n : ℕ) × (u16_at bytes i ≡ some n)
unfolding u16_at
u16_at-some bytes i room =
    let (low, e) = get_elem?-lt bytes i (omega arith) in
    let (high, f) = get_elem?-lt bytes (i + 1) (omega arith) in
    (low + 256 * high, rw (e, ◌>>=◌, f) refl)

u16_at-none : (bytes : List ℕ) (i : ℕ) → length bytes < i + 2 → u16_at bytes i ≡ none
unfolding u16_at
u16_at-none bytes i short = elim (Option-cases (get_elem? bytes i)) [
  | inl e ↦ rw e refl
  | inr (low, e) ↦ elim (Option-cases (get_elem? bytes (i + 1))) [
    | inl f ↦ rw (e, f) refl
    | inr (high, f) ↦ absurd (omega (arith, short, lt-get_elem? bytes (i + 1) high f))
  ]
]

length_line-some :
    (b : Bool) (label : Text) (bytes : List ℕ) (offset : ℕ)
    → offset + asked b ≤ length bytes
    → (lines : List Text) × (length_line b label bytes offset ≡ some (lines, offset + asked b))
unfolding length_line
length_line-some false label bytes offset room =
    ([], ap (λ (n : ℕ). some ([], n)) {x = offset} {y = offset + 0} (omega arith))
length_line-some true label bytes offset room =
    let (n, e) = u16_at-some bytes offset room in rw e (_, refl)

length_line-none :
    (b : Bool) (label : Text) (bytes : List ℕ) (offset : ℕ)
    → offset ≤ length bytes
    → length bytes < offset + asked b
    → length_line b label bytes offset ≡ none
unfolding length_line
length_line-none false label bytes offset inside short = absurd (omega (arith, inside, short))
length_line-none true label bytes offset inside short = rw (u16_at-none bytes offset short) refl

tuple_lines-some :
    (heading label : Text) (bytes : List ℕ) (offset : ℕ)
    → offset ≤ length bytes
    → (lines : List Text) × (tuple_lines heading label bytes offset ≡ some lines)
unfolding tuple_lines
tuple_lines-some heading label bytes offset inside =
    let (p, e, short) = parse_xl_heap_header-some (drop offset bytes) in
    rw (le→ltb (length bytes) offset inside, ◌>>=◌, e) (_, refl)

module _ (flags : ℕ) (bytes : List ℕ) where
  abbrev has_prefix : Bool
  has_prefix = has_bits flags 0x20

  abbrev has_suffix : Bool
  has_suffix = has_bits flags 0x40

  update_block-some :
      asked has_prefix + asked has_suffix ≤ length bytes
      → (lines : List Text) × (update_block flags bytes ≡ some lines)
  unfolding update_block
  update_block-some room =
      let (prefix, e) =
        length_line-some has_prefix (codes "  prefix_from_old: ") bytes 0 (omega (arith, room)) in
      let (suffix, f) =
        length_line-some has_suffix (codes "  suffix_from_old: ") bytes (0 + asked has_prefix)
          (omega (arith, room)) in
      let (tuple, g) =
        tuple_lines-some (codes "  new xl_heap_header:") (codes "  new tuple data: ") bytes
          (0 + asked has_prefix + asked has_suffix) (omega (arith, room)) in
      rw (e, ◌>>=◌, f, ◌>>=◌, g) (_, refl)

  update_block-none :
      length bytes < asked has_prefix + asked has_suffix → update_block flags bytes ≡ none
  unfolding update_block
  update_block-none short = elim (Bool-cases (leb (asked has_prefix) (length bytes))) [
    | inl e ↦
        let room = leb→le _ _ e in
        let (prefix, first) =
          length_line-some has_prefix (codes "  prefix_from_old: ") bytes 0 (omega (arith, room)) in
        let second =
          length_line-none has_suffix (codes "  suffix_from_old: ") bytes (0 + asked has_prefix)
            (omega (arith, room)) (omega (arith, short)) in
        rw (first, ◌>>=◌, second) refl
    | inr e ↦
        rw
          (length_line-none has_prefix (codes "  prefix_from_old: ") bytes 0 (omega arith)
            (ground arith))
          refl
  ]

some_not_none : {A : Type 0} (a : A) → ¬ (some a ≡ none)
some_not_none a h = cc

update_block-panics :
    (flags : ℕ) (bytes : List ℕ)
    → (update_block flags bytes ≡ none)
      ↔ (length bytes < asked (has_bits flags 0x20) + asked (has_bits flags 0x40))
update_block-panics flags bytes = (
  λ panics.
      elim (Bool-cases
        (leb (asked (has_bits flags 0x20) + asked (has_bits flags 0x40)) (length bytes))) [
          | inl e ↦
              let (lines, f) = update_block-some flags bytes (leb→le _ _ e) in
              absurd (some_not_none lines (sym f ∙ panics))
          | inr e ↦ ground arith
        ],
  update_block-none flags bytes,
)

-- The description of block 0 of an update panics just when its data is shorter than the lengths that
-- the flags announce.
pub describe_heap_block_data-panics :
    (xl_info : ℕ) (bytes : List ℕ) (info : WalRecordInfo)
    → (from_xl_info xl_info ≡ update) ⊎ (from_xl_info xl_info ≡ hot_update)
    → (describe_heap_block_data xl_info 0 bytes info ≡ none) ↔ (
        length bytes
        < asked (has_bits (update_flags (main_data_of info)) 0x20)
          + asked (has_bits (update_flags (main_data_of info)) 0x40))
unfolding describe_heap_block_data
describe_heap_block_data-panics xl_info bytes info (inl e) =
    rw e (update_block-panics (update_flags (main_data_of info)) bytes)
describe_heap_block_data-panics xl_info bytes info (inr e) =
    rw e (update_block-panics (update_flags (main_data_of info)) bytes)

-- ===== src/Walreader/Decode/PayloadLaws.antt =====
-- The payload pass cannot fail once the lengths have been checked, and lays the payloads end to end.
use pg_walview.Prelude.{
  ℕ, ◌+◌, ◌≤◌, ◌<◌, ◌≡◌, ◌∙◌, refl, ap, Bool, true, false, Option, none, some, List, [], ◌∷◌,
  length, if◌then◌else◌, has_bits, arith, All, u64_mod,
}
use pg_walview.Walmisc.{bkpblock_has_data}
use pg_walview.Walmisc.Reader
use pg_walview.Walmisc.Reader.{Reader}
use pg_walview.Walreader.Types.{
  Range, range_len, WalFullPageImage, WalBlockData, RecordPart, block_data,
}
use pg_walview.Walreader.Record.{Part, image_part, range_part, block_parts}
use pg_walview.Walreader.Decode.Monad.{◌>>=◌, pure}
use pg_walview.Walreader.Decode.Outcome.{Succeeds, Succeeds-bind, Succeeds-pure}
use pg_walview.Walreader.Decode.Headers.{bimg_len_of}
use pg_walview.Walreader.Decode.HeaderLaws.{block_total, blocks_total, Ascending}
use pg_walview.Walreader.Decode.Payloads.{
  take_range, fill_image, fill_data, fill_block, fill_blocks,
}

-- Consecutive ranges from `s` to `e`, without gap or overlap.
abbrev pub Chain : ℕ → List Part → ℕ → Type 0
Chain s [] e = s ≡ e
Chain s ((range, p) ∷ rest) e =
    (range.start ≡ s) × (range.start ≤ range.end) × Chain range.end rest e

-- The ranges of a block's payloads are as long as its header says.
abbrev ImageFits : Option WalFullPageImage → Type 0
ImageFits none = Unit
ImageFits (some image) = range_len image.bimg_range ≡ image.bimg_len

abbrev RangeFits : ℕ → Option Range → Type 0
RangeFits len none = Unit
RangeFits len (some range) = range_len range ≡ len

abbrev pub IsFilled : WalBlockData → Type 0
IsFilled block = ImageFits block.image × RangeFits block.data_len block.data_range

-- The cursor after `n` bytes of the same buffer.
abbrev pub At : Reader → ℕ → Reader → Type 0
At r n r' = (r'.buf ≡ r.buf) × (r'.pos ≡ r.pos + n)

-- `n` bytes are left.
abbrev pub Left : Reader → ℕ → Type 0
Left r n = (r.pos + n ≤ length r.buf) × (length r.buf < u64_mod)

pub rest_of_bytes :
    (r s : Reader) (n m : ℕ) → Left r (n + m) → s.buf ≡ r.buf → s.pos ≡ r.pos + n → Left s m
rest_of_bytes r s n m h same pos = omega (arith, ap (λ (l : List ℕ). length l) same)

module _ (lsn : ℕ) where
  pub take_range-Succeeds :
      (n : ℕ) (r : Reader)
      → Left r n
      → Succeeds
          (λ range r'. (range.start ≡ r.pos) × (range.end ≡ r'.pos) × At r n r')
          (take_range lsn n r)
  unfolding Succeeds take_range Reader.take_bytes
  take_range-Succeeds n r h = ground arith

  fill_image-Succeeds :
      (image : Option WalFullPageImage) (r : Reader)
      → Left r (bimg_len_of image)
      → Succeeds
          (λ filled r'.
            ImageFits filled
            × At r (bimg_len_of image) r'
            × ((i : ℕ) (rest : List Part) (e : ℕ)
                → Chain r'.pos rest e
                → Chain r.pos (image_part i filled rest) e))
          (fill_image lsn image r)
  unfolding fill_image
  fill_image-Succeeds none r h = Succeeds-pure _ none r (tt, (refl, omega arith), λ i rest e k. k)
  fill_image-Succeeds (some image) r h =
      Succeeds-bind _ _ (take_range lsn image.bimg_len r) _ (take_range-Succeeds image.bimg_len r h)
        λ range s (start, end, (same, pos)).
          Succeeds-pure _ _ s
            (omega arith, (same, pos), λ i rest e k. (start, omega arith, rw end k))

  -- Behind the payload stands the rest of the chain.
  abbrev pub Extends : (List Part → List Part) → Reader → Reader → Type 0
  Extends push r r' = (rest : List Part) (e : ℕ) → Chain r'.pos rest e → Chain r.pos (push rest) e

  pub fill_range-Succeeds :
      (has_data : Bool) (len : ℕ) (r : Reader)
      → Left r (if has_data then len else 0)
      → Succeeds
          (λ filled r'.
            RangeFits len filled
            × At r (if has_data then len else 0) r'
            × ((p : RecordPart) → Extends (range_part p filled) r r'))
          ((if has_data then (do range ← take_range lsn len; pure (some range)) else pure none) r)
  fill_range-Succeeds true len r h =
      Succeeds-bind _ _ (take_range lsn len r) _ (take_range-Succeeds len r h)
        λ range s (start, end, (same, pos)).
          Succeeds-pure _ _ s
            (omega arith, (same, pos), λ p rest e k. (start, omega arith, rw end k))
  fill_range-Succeeds false len r h =
      Succeeds-pure _ none r (tt, (refl, omega arith), λ p rest e k. k)

  abbrev Fills : ℕ → WalBlockData → Reader → WalBlockData → Reader → Type 0
  Fills id block r filled r' =
      (filled.block_id ≡ id)
      × IsFilled filled
      × At r (block_total block) r'
      × ((i : ℕ)
          → Extends
              (λ rest. image_part i filled.image (range_part (block_data i) filled.data_range rest))
              r r')

  fill_block-Succeeds :
      (block : WalBlockData) (r : Reader)
      → block.data_range ≡ none
      → Left r (block_total block)
      → Succeeds (Fills block.block_id block r) (fill_block lsn block r)
  unfolding fill_block fill_data
  fill_block-Succeeds block r empty h =
      Succeeds-bind _ _ (fill_image lsn block.image r) _
        (fill_image-Succeeds block.image r (omega arith))
        λ image s (fits, (same, pos), extends). rw empty (
          Succeeds-bind _ _ _ _
            (fill_range-Succeeds (has_bits block.flags bkpblock_has_data) block.data_len s (
              rest_of_bytes r s (bimg_len_of block.image)
                (if has_bits block.flags bkpblock_has_data then block.data_len else 0) (omega arith)
                same pos))
            λ range t (fits', (same', pos'), extends'). Succeeds-pure _ _ t (
              refl,
              (fits, fits'),
              (same' ∙ same, omega arith),
              λ i rest e k. extends i _ e (extends' (block_data i) rest e k),
            ))

  -- The whole pass: every block filled, ids kept, and the payloads of the blocks in one chain.
  pub fill_blocks-Succeeds :
      (blocks : List WalBlockData) (r : Reader)
      → All (λ b. b.data_range ≡ none) blocks
      → Left r (blocks_total blocks)
      → Succeeds
          (λ filled r'.
            All IsFilled filled
            × At r (blocks_total blocks) r'
            × ((lo hi : ℕ) → Ascending lo blocks hi → Ascending lo filled hi)
            × ((i : ℕ) → Extends (block_parts i filled) r r'))
          (fill_blocks lsn blocks r)
  unfolding fill_blocks block_parts
  fill_blocks-Succeeds [] r none_yet h =
      Succeeds-pure _ [] r (tt, (refl, omega arith), (λ lo hi k. k), λ i rest e k. k)
  fill_blocks-Succeeds (block ∷ blocks) r (empty, none_yet) h =
      Succeeds-bind _ _ (fill_block lsn block r) _ (fill_block-Succeeds block r empty (omega arith))
        λ filled s (id, is_filled, (same, pos), extends).
          Succeeds-bind _ _ (fill_blocks lsn blocks s) _
            (fill_blocks-Succeeds blocks s none_yet
              (rest_of_bytes r s (block_total block) (blocks_total blocks) h same pos))
            λ others t (are_filled, (same', pos'), ascending, extends').
              Succeeds-pure _ (filled ∷ others) t (
                (is_filled, are_filled),
                (same' ∙ same, omega arith),
                (λ lo hi k. rw id (k.0, ascending (block.block_id + 1) hi k.1)),
                λ i rest e k. extends i _ e (extends' (i + 1) rest e k),
              )

-- ===== src/Walreader/Record.antt =====
-- `impl WALRecordInfo` of src/walreader.rs: the parts of a record, its payloads, and where they lie
-- in the file.
pub mod Tiles
pub mod FileRanges
use pg_walview.Prelude.{
  ℕ, zero, suc, ◌+◌, ◌-◌, ◌≤◌, min, max, Bool, true, false, not, ◌≡◌, Option, none, some, List, [],
  ◌∷◌, ◌++◌, length, get_elem?, slice, ltb, leb, if◌then◌else◌,
}
use pg_walview.Bindings.{Bindings}
use pg_walview.Walreader.Types.{
  Range, range_len, range_is_empty, WalFullPageImage, WalBlockData, WalRecordInfo, RecordPart,
  header, descriptors, fpi, block_data, main_data,
}
use mathlib.Core.Option

abbrev pub Part : Type 0
Part = Range × RecordPart

-- `payloads.push`, for an image and for block data.
abbrev pub image_part : ℕ → Option WalFullPageImage → List Part → List Part
image_part i none rest = rest
image_part i (some image) rest = (image.bimg_range, fpi i) ∷ rest

abbrev pub range_part : RecordPart → Option Range → List Part → List Part
range_part p none rest = rest
range_part p (some range) rest = (range, p) ∷ rest

-- The payloads of the blocks from number `i` on, then those of `rest`.
unfoldable pub block_parts : ℕ → List WalBlockData → List Part → List Part
block_parts i [] rest = rest
block_parts i (block ∷ blocks) rest =
    image_part i block.image
      (range_part (block_data i) block.data_range (block_parts (i + 1) blocks rest))

-- `payloads.retain(|(r, _)| !r.is_empty())`
unfoldable pub retain_nonempty : List Part → List Part
retain_nonempty [] = []
retain_nonempty ((range, p) ∷ rest) =
    let kept = retain_nonempty rest in if range_is_empty range then kept else (range, p) ∷ kept

abbrev pub first_start : List Part → ℕ → ℕ
first_start [] default = default
first_start ((range, p) ∷ rest) default = range.start

unfoldable pub payload_parts : WalRecordInfo → List Part
unfolding block_parts retain_nonempty
payload_parts info =
    retain_nonempty (block_parts 0 info.blocks (range_part main_data info.main_range []))

-- The header, the descriptors up to the first payload, and the payloads.
unfoldable pub record_parts : Bindings → WalRecordInfo → List Part
unfolding payload_parts
record_parts c info =
    let payloads = payload_parts info in
    let size = c.size_of_xlog_record in
    let descriptors_end = first_start payloads info.xlrec.xl_tot_len in
    (record { start = 0; end = size }, header)
    ∷ (if ltb size descriptors_end
        then (record { start = size; end = descriptors_end }, descriptors) ∷ payloads
        else payloads)

-- The loop of `file_ranges_of`: what the file ranges so far covered of the raw bytes is `consumed`.
unfoldable pub file_ranges_from : ℕ → List Range → Range → List Range
file_ranges_from consumed [] raw = []
file_ranges_from consumed (file ∷ rest) raw =
    let piece_end = consumed + range_len file in
    let start = max raw.start consumed in
    let end = min raw.end piece_end in
    let others = file_ranges_from piece_end rest raw in
    if leb end start
    then others
    else record { start = file.start + (start - consumed); end = file.start + (end - consumed) }
      ∷ others

unfoldable pub file_ranges_of : WalRecordInfo → Range → List Range
unfolding file_ranges_from
file_ranges_of info raw = file_ranges_from 0 info.file_ranges raw

-- `&self.raw[r]`, for a range that lies in `raw`.
abbrev pub bytes_at : List ℕ → Range → List ℕ
bytes_at raw r = slice r.start (range_len r) raw

unfoldable pub main_data_of : WalRecordInfo → Option (List ℕ)
main_data_of info = Option.map (bytes_at info.raw) info.main_range

unfoldable pub block_data_of : WalRecordInfo → ℕ → Option (List ℕ)
block_data_of info i =
    Option.bind (get_elem? info.blocks i) λ block. Option.map (bytes_at info.raw) block.data_range

unfoldable pub block_image_data : WalRecordInfo → ℕ → Option (List ℕ)
block_image_data info i =
    Option.bind (get_elem? info.blocks i)
      λ block. Option.map (λ image. bytes_at info.raw image.bimg_range) block.image

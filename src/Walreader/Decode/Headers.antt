-- ===== src/Walreader/Decode/Headers.antt =====
-- The first half of `decode_wal_record`: the loop over block references, origin, top-level XID and
-- the main-data header, which ends at the payloads.
use pg_walview.Prelude.{
  ℕ, zero, suc, ◌+◌, ◌-◌, ◌%◌, bit_and, Bool, true, false, not, ◌&&◌, ◌||◌, Option, none, some,
  List, [], ◌∷◌, ◌++◌, ltb, leb, ◌==◌, if◌then◌else◌, has_bits, u16_mod,
}
use pg_walview.Bindings.{Bindings, RelFileLocator}
use pg_walview.Walmisc.{
  xlr_max_block_id, xlr_block_id_data_short, xlr_block_id_data_long, xlr_block_id_origin,
  xlr_block_id_toplevel_xid, bkpblock_fork_mask, bkpblock_has_image, bkpblock_has_data,
  bkpblock_same_rel, bkpimage_has_hole, bkpimage_apply, bkpimage_compressed,
}
use pg_walview.Walmisc.Reader
use pg_walview.Walmisc.Reader.{Reader}
use pg_walview.Walreader.Types.{
  invalid_block_id, out_of_order_block_id, no_data_included, invalid_data_length, invalid_hole_data,
  invalid_hole_flag, invalid_compress_flag, same_rel_not_found, Range, WalFullPageImage,
  WalBlockData, ok, stuck,
}
use pg_walview.Walreader.Decode.Monad.{
  Parse, ◌>>=◌, ◌>>◌, pure, fail, reject_if, or_fail, u8, u16, u32,
}

abbrev pub no_range : Range
no_range = record { start = 0; end = 0 }

module _ (c : Bindings) (lsn : ℕ) where
  abbrev blcksz_u16 : ℕ
  blcksz_u16 = c.blcksz % u16_mod

  -- `image.hole_len`: read for a compressed image with a hole, else what the page leaves over.
  unfoldable pub decode_hole_len : ℕ → ℕ → Parse ℕ
  decode_hole_len bimg_info bimg_len =
      if bkpimage_compressed bimg_info
      then (if has_bits bimg_info bkpimage_has_hole then u16 lsn else pure 0)
      else pure (blcksz_u16 - bimg_len)

  -- The full-page image header of a block.
  unfoldable pub decode_image : Parse WalFullPageImage
  decode_image = do
    bimg_len ← u16 lsn
    hole_offset ← u16 lsn
    bimg_info ← u8 lsn
    hole_len ← decode_hole_len bimg_info bimg_len
    let compressed = bkpimage_compressed bimg_info
    let has_hole = has_bits bimg_info bkpimage_has_hole
    reject_if (has_hole && (hole_offset == 0 || (hole_len == 0 || bimg_len == blcksz_u16)))
        (invalid_hole_data hole_offset hole_len bimg_len lsn)
    reject_if (not has_hole && (not (hole_offset == 0) || not (hole_len == 0)))
        (invalid_hole_flag hole_offset hole_len lsn)
    reject_if (compressed && bimg_len == blcksz_u16) (invalid_compress_flag bimg_len lsn)
    pure (record {
      compressed = compressed;
      apply_image = has_bits bimg_info bkpimage_apply;
      hole_offset = hole_offset;
      hole_len = hole_len;
      bimg_info = bimg_info;
      bimg_len = bimg_len;
      bimg_range = no_range;
    })

  unfoldable pub decode_optional_image : ℕ → Parse (Option WalFullPageImage)
  decode_optional_image flags =
      if has_bits flags bkpblock_has_image
      then (do image ← decode_image; pure (some image))
      else pure none

  -- The locator of a block: read, or that of the block before.
  unfoldable pub decode_rlocator : ℕ → Option RelFileLocator → Parse RelFileLocator
  decode_rlocator flags previous =
      if has_bits flags bkpblock_same_rel then or_fail previous (same_rel_not_found lsn) else do
        spc ← u32 lsn
        db ← u32 lsn
        rel ← u32 lsn
        pure (record { spc_oid = spc; db_oid = db; rel_number = rel })

  -- The block reference behind a block id that is in order.
  unfoldable pub decode_block : ℕ → Option RelFileLocator → Parse WalBlockData
  decode_block block_id previous = do
    fork_flags ← u8 lsn
    data_len ← u16 lsn
    let has_data = has_bits fork_flags bkpblock_has_data
    reject_if (has_data && data_len == 0) (no_data_included lsn)
    reject_if (not has_data && ltb 0 data_len) (invalid_data_length data_len lsn)
    image ← decode_optional_image fork_flags
    rlocator ← decode_rlocator fork_flags previous
    blocknum ← u32 lsn
    pure (record {
      block_id = block_id;
      rlocator = rlocator;
      forknum = bit_and fork_flags bkpblock_fork_mask;
      flags = fork_flags;
      blocknum = blocknum;
      image = image;
      data_len = data_len;
      data_range = none;
    })

-- The variables of the loop. `next_block_id` is the source's `max_block_id + 1`, since that starts
-- at -1.
pub record Headers : Type 0 where
  pub blocks : List WalBlockData
  pub rlocator : Option RelFileLocator
  pub next_block_id : ℕ
  pub datatotal : ℕ
  pub main_len : ℕ
  pub has_main : Bool
  pub origin : Option ℕ
  pub top_xid : Option ℕ

abbrev pub no_headers : Headers
no_headers = record {
  blocks = [];
  rlocator = none;
  next_block_id = 0;
  datatotal = 0;
  main_len = 0;
  has_main = false;
  origin = none;
  top_xid = none;
}

abbrev pub bimg_len_of : Option WalFullPageImage → ℕ
bimg_len_of none = 0
bimg_len_of (some image) = image.bimg_len

-- `rlocator` is the last one read or copied, and the two payload lengths join `datatotal`.
abbrev pub push_block : Headers → WalBlockData → Headers
push_block h block = record h {
  blocks = h.blocks ++ block ∷ [];
  rlocator = some block.rlocator;
  next_block_id = block.block_id + 1;
  datatotal = h.datatotal + block.data_len + bimg_len_of block.image;
}

abbrev pub set_main : Headers → ℕ → Headers
set_main h len = record h { main_len = len; has_main = true; datatotal = h.datatotal + len }

module _ (c : Bindings) (lsn : ℕ) where
  -- One round of the loop: the headers after it, and whether the loop goes on (no `break`).
  unfoldable pub decode_header : Headers → Parse (Headers × Bool)
  decode_header h = do
    block_id ← u8 lsn
    if block_id == xlr_block_id_data_short
        then (do len ← u8 lsn; pure (set_main h len, false))
        else if block_id == xlr_block_id_data_long
        then (do len ← u32 lsn; pure (set_main h len, false))
        else if block_id == xlr_block_id_origin
        then (do origin ← u16 lsn; pure (record h { origin = some origin }, true))
        else if block_id == xlr_block_id_toplevel_xid
        then (do xid ← u32 lsn; pure (record h { top_xid = some xid }, true))
        else if leb block_id xlr_max_block_id
        then (do
          reject_if (ltb block_id h.next_block_id) (out_of_order_block_id block_id lsn)
          block ← decode_block c lsn block_id h.rlocator
          pure (push_block h block, true))
        else fail (invalid_block_id block_id lsn)

  -- `while r.remaining() > datatotal`, with fuel: each round reads a byte at least.
  unfoldable pub decode_headers : ℕ → Headers → Parse Headers
  decode_headers zero h r = if ltb h.datatotal (Reader.remaining r) then stuck else ok (h, r)
  decode_headers (suc fuel) h r =
      let again = λ (h' : Headers). decode_headers fuel h' in
      let round = (do (h', more) ← decode_header h; if more then again h' else pure h') r in
      if ltb h.datatotal (Reader.remaining r) then round else ok (h, r)

-- ===== src/Walreader/Decode/Payloads.antt =====
-- The second half of `decode_wal_record`: the payloads behind the headers, in block order, with
-- the main data last; and the whole decoder.
use pg_walview.Prelude.{
  ℕ, false, not, Option, none, some, List, [], ◌∷◌, length, ltb, ◌==◌, if◌then◌else◌, has_bits,
}
use pg_walview.Bindings.{Bindings, XLogRecord}
use pg_walview.Walmisc.{bkpblock_has_data}
use pg_walview.Walmisc.Reader
use pg_walview.Walmisc.Reader.{Reader}
use pg_walview.Walreader.Types.{
  truncated_record, invalid_record_length, Range, WalFullPageImage, WalBlockData, WalRecordInfo,
  Result, ok, err, stuck,
}
use pg_walview.Walreader.Decode.Monad.{Parse, ◌>>=◌, ◌>>◌, pure, or_truncated, reject_if}
use pg_walview.Walreader.Decode.Headers.{Headers, no_headers, decode_headers}

module _ (lsn : ℕ) where
  -- `let start = r.pos; r.take(n)?; start..r.pos`
  unfoldable pub take_range : ℕ → Parse Range
  take_range n r =
      let start = r.pos in
      (do
        _ ← or_truncated lsn (Reader.take_bytes n)
        λ r'. ok (record { start = start; end = r'.pos }, r'))
        r

  unfoldable pub fill_image : Option WalFullPageImage → Parse (Option WalFullPageImage)
  fill_image none = pure none
  fill_image (some image) = do
    range ← take_range image.bimg_len
    pure (some (record image { bimg_range = range }))

  unfoldable pub fill_data : WalBlockData → Parse (Option Range)
  fill_data block =
      if has_bits block.flags bkpblock_has_data
      then (do range ← take_range block.data_len; pure (some range))
      else pure block.data_range

  unfoldable pub fill_block : WalBlockData → Parse WalBlockData
  fill_block block = do
    image ← fill_image block.image
    data_range ← fill_data block
    pure (record block { image = image; data_range = data_range })

  -- `for block in record_info.blocks.iter_mut()`
  unfoldable pub fill_blocks : List WalBlockData → Parse (List WalBlockData)
  fill_blocks [] = pure []
  fill_blocks (block ∷ rest) = do
    filled ← fill_block block
    others ← fill_blocks rest
    pure (filled ∷ others)

  unfoldable pub fill_main : Headers → Parse (Option Range)
  fill_main h =
      if h.has_main then (do range ← take_range h.main_len; pure (some range)) else pure none

-- The reader is dropped with the decoder's return.
abbrev pub forget {ℓ} : {A : Type ℓ} → Result (A × Reader) → Result A
forget (ok (a, r)) = ok a
forget (err e) = err e
forget stuck = stuck

module _ (c : Bindings) (bytes : List ℕ) (lsn : ℕ) where
  abbrev pub record_header : XLogRecord
  record_header = c.xlog_record bytes

  -- The body behind the `XLogRecord` header, and what `load_next_record` fills in left empty.
  unfoldable pub decode_body : Parse WalRecordInfo
  decode_body = do
    h ← decode_headers c lsn (length bytes) no_headers
    (λ r.
        reject_if (not (Reader.remaining r == h.datatotal))
          (invalid_record_length record_header.xl_tot_len lsn) r)
    blocks ← fill_blocks lsn h.blocks
    main_range ← fill_main lsn h
    pure (record {
      lsn = lsn;
      xlrec = record_header;
      blocks = blocks;
      main_len = h.main_len;
      main_range = main_range;
      origin = h.origin;
      top_xid = h.top_xid;
      crc_ok = false;
      file_ranges = [];
      raw = bytes;
    })

  -- The record of a buffer that begins at the first byte of its header.
  unfoldable pub decode_wal_record : Result WalRecordInfo
  decode_wal_record =
      if ltb (length bytes) c.size_of_xlog_record
      then err (truncated_record lsn)
      else forget (decode_body (Reader.skip c.size_of_xlog_record (Reader.new bytes)))

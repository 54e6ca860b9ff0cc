-- ===== src/Walreader/Scan/Finishing.antt =====
-- `load_next_record` of src/walreader.rs behind the copying of a record: it is decoded and checked.
use pg_walview.Prelude.{
  ℕ, ◌+◌, ◌*◌, ◌%◌, ◌≤◌, ◌<◌, ◌≡◌, ◌∙◌, refl, sym, ap, Bool, true, List, [], length, slice,
  if◌then◌else◌, arith, All, u64_mod,
}
use mathlib.Core.Path.{subst}
use pg_walview.Bindings.{Bindings, IsLayout}
use pg_walview.Walmisc.{maxalign, xlog_record_max_size}
use pg_walview.Walmisc.Words.{from_le_bytes}
use pg_walview.Walreader.Types.{Range, main_data, WalRecordInfo, Result, ok, err, stuck}
use pg_walview.Walreader.Record.{range_part, block_parts, record_parts, payload_parts}
use pg_walview.Walreader.Record.Tiles.{NonEmpty, record_parts-Tiles}
use pg_walview.Walreader.Decode.Payloads.{decode_wal_record}
use pg_walview.Walreader.Decode.PayloadLaws.{Chain}
use pg_walview.Walreader.Decode.Layout.{
  IsDecoded, decode_wal_record-IsDecoded, decode_wal_record-ne-stuck,
}
use pg_walview.Walreader.Pages.{WalReader, lsn_to_page_offset}
use pg_walview.Walreader.Scan.{Copy, verify_record_crc, deliver, finish_record}
use pg_walview.Walreader.Scan.Loading.{frame, IsLoaded}
use pg_walview.Walreader.Scan.Content.{enter, places, behind, bytes_at}
use pg_walview.Walreader.Scan.Gather.{gather, offsets_of, IsInside, gather-offsets_of}
use pg_walview.Walreader.Scan.Outcome.{Ends}
use pg_walview.Walreader.Scan.RecordAt.{start_at, record_frame, Loaded}

module _ (c : Bindings) where
  -- The checksum flag and the file ranges are not the decoder's.
  deliver-IsDecoded :
      (bytes : List ℕ) (lsn lsn' : ℕ) (info : WalRecordInfo) (crc_ok : Bool)
      (file_ranges : List Range)
      → lsn ≡ lsn'
      → IsDecoded c bytes lsn info
      → IsDecoded c info.raw lsn' (record info { crc_ok = crc_ok; file_ranges = file_ranges })
  deliver-IsDecoded bytes lsn lsn' info crc_ok file_ranges at d = record {
    raw_bytes = refl;
    header = d.header ∙ ap c.xlog_record (sym d.raw_bytes);
    at = d.at ∙ at;
    ascending = d.ascending;
    filled = d.filled;
    descriptors_end = d.descriptors_end;
    behind_header = d.behind_header;
    payloads =
        subst
          (λ (l : List ℕ).
            Chain d.descriptors_end
              (block_parts 0 info.blocks (range_part main_data info.main_range [])) (length l))
          (sym d.raw_bytes) d.payloads;
  }

  module _ (layout : IsLayout c) (r : WalReader) where
    -- All bytes are there: they are decoded.
    pub finish_record-Ends :
        (st : Copy) (s : WalReader) (tot_len header_bytes : ℕ)
        → frame s ≡ frame (record r { record_lsn = r.read_lsn; record_buffer = [] })
        → IsLoaded s
        → gather s.source st.file_ranges ≡ s.record_buffer
        → All (IsInside s.source) st.file_ranges
        → length s.record_buffer ≡ tot_len
        → offsets_of st.file_ranges ≡ places c r tot_len (start_at r)
        → (s.page_no, st.offset) ≡ behind c r tot_len (start_at r)
        → tot_len ≡ from_le_bytes (slice 0 4 s.record_buffer)
        → 24 ≤ tot_len
        → tot_len ≤ xlog_record_max_size
        → st.offset ≤ r.xlog_blcksz
        → s.page_no * r.xlog_blcksz + st.offset
          ≡ r.page_no * r.xlog_blcksz + lsn_to_page_offset r r.read_lsn + (header_bytes + tot_len)
        → Ends (Loaded c r) (finish_record c tot_len header_bytes st.file_ranges s)
    unfolding finish_record Ends enter
    finish_record-Ends st s tot_len header_bytes kept loaded gathered inside len placed ends head
          small large on_page came =
        go (decode_wal_record c s.record_buffer s.record_lsn) refl
      where
        fits : length s.record_buffer < u64_mod
        fits = omega arith

        lsn : s.record_lsn ≡ r.read_lsn
        lsn = ap (λ (x : WalReader). x.record_lsn) kept

        go :
            (x : Result WalRecordInfo)
            → decode_wal_record c s.record_buffer s.record_lsn ≡ x
            → Ends (Loaded c r) (
                deliver c st.file_ranges x (record s {
                  read_lsn = (s.read_lsn + (header_bytes + maxalign tot_len)) % u64_mod;
                }))
        go (err e) decoded = tt
        go stuck decoded =
            decode_wal_record-ne-stuck c s.record_buffer s.record_lsn layout fits decoded
        go (ok info) decoded =
            let d =
              decode_wal_record-IsDecoded c s.record_buffer s.record_lsn layout fits info decoded in
            let whole : info.xlrec.xl_tot_len ≡ length s.record_buffer =
              ap (λ x. x.xl_tot_len) d.header
              ∙ layout.tot_len_first s.record_buffer (omega arith)
              ∙ sym head
              ∙ sym len in
            let raw : length info.raw ≡ length s.record_buffer =
              ap (λ (l : List ℕ). length l) d.raw_bytes in
            let tiles =
              record_parts-Tiles c layout s.record_buffer s.record_lsn info fits decoded whole in
            let from_file : gather r.source st.file_ranges ≡ info.raw =
              ap (λ (l : List ℕ). gather l st.file_ranges)
                (sym (ap (λ (x : WalReader). x.source) kept))
              ∙ gathered
              ∙ sym d.raw_bytes in
            let here : All (IsInside r.source) st.file_ranges =
              subst (λ l. All (IsInside l) st.file_ranges) (ap (λ (x : WalReader). x.source) kept)
                inside in
            let trail : offsets_of st.file_ranges ≡ places c r (length info.raw) (start_at r) =
              placed ∙ ap (λ n. places c r n (start_at r)) (sym len ∙ sym raw) in
            unfold record_parts in
            unfold payload_parts in
            record {
              content =
                  sym from_file
                  ∙ gather-offsets_of r.source st.file_ranges here
                  ∙ ap (bytes_at r.source) trail;
              placed = trail;
              from_file = from_file;
              inside = here;
              ends = ends ∙ ap (λ n. behind c r n (start_at r)) (sym len ∙ sym raw);
              whole = raw ∙ sym whole;
              header_fits = omega arith;
              limited = omega arith;
              decoded = deliver-IsDecoded s.record_buffer s.record_lsn r.read_lsn info _ _ lsn d;
              tiles =
                  subst (λ n. Chain 0 (record_parts c info) n × All NonEmpty (record_parts c info))
                    (sym raw) tiles;
              checked = ap (verify_record_crc c) (sym d.raw_bytes);
              stops =
                  ap (λ b. if verify_record_crc c s.record_buffer then b else true)
                    (ap (λ (x : WalReader). x.done) kept);
              header_bytes = header_bytes;
              end_offset = st.offset;
              on_page = on_page;
              loaded = record { buffer = loaded.buffer; inside = loaded.inside };
              kept = ap record_frame kept;
              came_to =
                  came
                  ∙ ap
                      (λ n.
                        r.page_no * r.xlog_blcksz
                        + lsn_to_page_offset r r.read_lsn
                        + (header_bytes + n))
                      (sym len ∙ sym raw);
              advanced =
                  ap (λ n. (n + (header_bytes + maxalign tot_len)) % u64_mod)
                    (ap (λ (x : WalReader). x.read_lsn) kept)
                  ∙ ap (λ n. (r.read_lsn + (header_bytes + maxalign n)) % u64_mod)
                      (sym len ∙ sym raw);
            }

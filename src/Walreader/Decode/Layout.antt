-- ===== src/Walreader/Decode/Layout.antt =====
-- What a decoded record is: every byte accounted for, in the order of the format.
use pg_walview.Prelude.{
  ℕ, ◌+◌, ◌≤◌, ◌<◌, ◌≡◌, ◌≢◌, ◌∙◌, refl, ap, false, not, List, [], ◌∷◌, length, ltb, ◌==◌,
  if◌then◌else◌, arith, All, Bool-cases, inl, inr, u64_mod, ==→eq, not-eq-false,
}
use pg_walview.Bindings.{Bindings, IsLayout}
use pg_walview.Walmisc.Reader
use pg_walview.Walmisc.Reader.{Reader}
use pg_walview.Walreader.Types.{WalBlockData, WalRecordInfo, main_data, Result, ok, err, stuck}
use pg_walview.Walreader.Record.{range_part, block_parts}
use pg_walview.Walreader.Decode.Monad.{◌>>=◌, pure}
use pg_walview.Walreader.Decode.Outcome.{
  Sound, Sound-bind, Sound-reject, Sound-ok, Sound-ne-stuck, Succeeds, Succeeds-bind, Succeeds-pure,
  Succeeds-Sound, Forward,
}
use pg_walview.Walreader.Decode.Headers.{Headers, no_headers, decode_headers}
use pg_walview.Walreader.Decode.HeaderLaws.{
  blocks_total, Ascending, IsCounted, no_headers-IsCounted, decode_headers-Sound,
}
use pg_walview.Walreader.Decode.Payloads.{
  fill_blocks, fill_main, forget, decode_body, decode_wal_record,
}
use pg_walview.Walreader.Decode.PayloadLaws.{
  Chain, IsFilled, Left, fill_range-Succeeds, fill_blocks-Succeeds, rest_of_bytes,
}

remaining_eq :
    (s : Reader) (d : ℕ) → Reader.remaining s ≡ d → s.pos ≤ length s.buf → s.pos + d ≡ length s.buf
unfolding Reader.remaining
remaining_eq s d e h = omega arith

module _ (c : Bindings) (bytes : List ℕ) (lsn : ℕ) where
  -- The record holds the bytes it was decoded from; its blocks are numbered in ascending order up to
  -- 32; each payload range is as long as the header of its block says; and from some place behind
  -- the `XLogRecord` header the payloads follow one another to the last byte.
  pub record IsDecoded (info : WalRecordInfo) : Type 0 where
    pub raw_bytes : info.raw ≡ bytes
    pub header : info.xlrec ≡ c.xlog_record bytes
    pub at : info.lsn ≡ lsn
    pub ascending : Ascending 0 info.blocks 33
    pub filled : All IsFilled info.blocks
    pub descriptors_end : ℕ
    pub behind_header : 24 ≤ descriptors_end
    pub payloads :
        Chain descriptors_end
          (block_parts 0 info.blocks (range_part main_data info.main_range []))
          (length bytes)

  main_bytes :
      (h : Headers)
      → (h.has_main ≡ false → h.main_len ≡ 0)
      → (if h.has_main then h.main_len else 0) ≡ h.main_len
  main_bytes h no_main = ground (arith, no_main)

  Ascending-weaken :
      (lo : ℕ) (blocks : List WalBlockData) (hi top : ℕ)
      → hi ≤ top
      → Ascending lo blocks hi
      → Ascending lo blocks top
  Ascending-weaken lo [] hi top p h = omega arith
  Ascending-weaken lo (b ∷ blocks) hi top p (q, h) =
      (q, Ascending-weaken (b.block_id + 1) blocks hi top p h)

  -- From checked lengths on, the decoder succeeds.
  payloads-Succeeds :
      (h : Headers) (r : Reader)
      → IsCounted h
      → r.buf ≡ bytes
      → 24 ≤ r.pos
      → r.pos + h.datatotal ≡ length bytes
      → length bytes < u64_mod
      → Succeeds
          (λ info _. IsDecoded info)
          ((do
            blocks ← fill_blocks lsn h.blocks
            main_range ← fill_main lsn h
            pure (record {
              lsn = lsn;
              xlrec = c.xlog_record bytes;
              blocks = blocks;
              main_len = h.main_len;
              main_range = main_range;
              origin = h.origin;
              top_xid = h.top_xid;
              crc_ok = false;
              file_ranges = [];
              raw = bytes;
            }))
            r)
  unfolding fill_main
  payloads-Succeeds h r k same behind total small =
      let main = main_bytes h k.no_main in
      let len = ap (λ (l : List ℕ). length l) same in
      let room : Left r (blocks_total h.blocks + (if h.has_main then h.main_len else 0)) =
        omega (arith, len, main, k.total) in
      Succeeds-bind _ _ (fill_blocks lsn h.blocks r) _
        (fill_blocks-Succeeds lsn h.blocks r k.unfilled (omega (arith, room)))
        λ blocks s (filled, (same', pos), ascending, extends).
          Succeeds-bind _ _ (fill_main lsn h s) _
            (fill_range-Succeeds lsn h.has_main h.main_len s
              (rest_of_bytes r s (blocks_total h.blocks) _ room same' pos))
            λ main_range t (_, (same'', pos'), extends'). Succeeds-pure _ _ t (record {
              raw_bytes = refl;
              header = refl;
              at = refl;
              ascending =
                  Ascending-weaken 0 blocks h.next_block_id 33 k.in_range
                    (ascending 0 h.next_block_id k.ascending);
              filled = filled;
              descriptors_end = r.pos;
              behind_header = behind;
              payloads = extends 0 _ (length bytes) (
                  extends' main_data [] (length bytes)
                    (omega (arith, main, pos, pos', total, k.total)));
            })

  decode_body-Sound :
      (r : Reader)
      → r.buf ≡ bytes
      → 24 ≤ r.pos
      → r.pos ≤ length r.buf
      → length bytes < u64_mod
      → Sound (λ info _. IsDecoded info) (decode_body c bytes lsn r)
  unfolding decode_body
  decode_body-Sound r same behind inside small =
      Sound-bind _ _ (decode_headers c lsn (length bytes) no_headers r) _
        (decode_headers-Sound c lsn (length bytes) no_headers r no_headers-IsCounted refl inside
          (omega (arith, ap (λ (l : List ℕ). length l) same)))
        λ h s (k, f). Sound-reject _ _ _ _ s λ checked. Succeeds-Sound _ _ (
          payloads-Succeeds h s k (f.0 ∙ same) (omega (arith, f.1)) (length_checked h s f checked)
            small)
    where
      length_checked :
          (h : Headers) (s : Reader)
          → Forward 0 r s
          → not (Reader.remaining s == h.datatotal) ≡ false
          → s.pos + h.datatotal ≡ length bytes
      length_checked h s f checked =
          let left = ==→eq (Reader.remaining s) h.datatotal (not-eq-false _ checked) in
          omega (
            arith,
            lengths,
            remaining_eq s h.datatotal left (omega (arith, lengths, lengths', f.1, f.2)),
          )
        where
          lengths : length s.buf ≡ length bytes
          lengths = ap (λ (l : List ℕ). length l) (f.0 ∙ same)

          lengths' : length r.buf ≡ length bytes
          lengths' = ap (λ (l : List ℕ). length l) same

  start-Sound :
      IsLayout c
      → length bytes < u64_mod
      → ltb (length bytes) c.size_of_xlog_record ≡ false
      → Sound
          (λ info _. IsDecoded info)
          (decode_body c bytes lsn (Reader.skip c.size_of_xlog_record (Reader.new bytes)))
  unfolding Reader.skip Reader.new
  start-Sound layout small enough =
      let size = layout.record_size in decode_body-Sound _ refl (ground arith) (ground arith) small

  forget-ne-stuck : (x : Result (WalRecordInfo × Reader)) → x ≢ stuck → forget x ≢ stuck
  forget-ne-stuck (ok _) h = λ e. cc
  forget-ne-stuck (err _) h = λ e. cc
  forget-ne-stuck stuck h = λ e. h refl

  forget-eq-ok :
      (x : Result (WalRecordInfo × Reader)) (info : WalRecordInfo)
      → forget x ≡ ok info
      → (r : Reader) × (x ≡ ok (info, r))
  forget-eq-ok (ok (i, r)) info e = (r, ground arith)
  forget-eq-ok (err _) info e = absurd (cc)
  forget-eq-ok stuck info e = absurd (cc)

  -- On a buffer of less than 2^64 bytes the decoder ends: its fuel, the length of the buffer, is enough.
  pub decode_wal_record-ne-stuck :
      IsLayout c → length bytes < u64_mod → decode_wal_record c bytes lsn ≢ stuck
  unfolding decode_wal_record
  decode_wal_record-ne-stuck layout small =
      elim (Bool-cases (ltb (length bytes) c.size_of_xlog_record)) [
        | inl short ↦ rw short (λ e. cc)
        | inr enough ↦
            rw enough (forget-ne-stuck _ (Sound-ne-stuck _ _ (start-Sound layout small enough)))
      ]

  -- A record that is decoded from a buffer of less than 2^64 bytes accounts for every byte of it: its
  -- blocks are numbered in ascending order up to 32, each payload is as long as the header of its block
  -- says, and from a place behind the fixed header the payloads follow one another, in block order and
  -- with the main data last, to the end.
  pub decode_wal_record-IsDecoded :
      IsLayout c
      → length bytes < u64_mod
      → (info : WalRecordInfo) → decode_wal_record c bytes lsn ≡ ok info
      → IsDecoded info
  unfolding decode_wal_record
  decode_wal_record-IsDecoded layout small info e =
      elim (Bool-cases (ltb (length bytes) c.size_of_xlog_record)) [
        | inl short ↦ absurd (cc (rw short at e))
        | inr enough ↦
            let (r, found) = forget-eq-ok _ info (rw enough at e) in
            Sound-ok _ _ info r (start-Sound layout small enough) found
      ]

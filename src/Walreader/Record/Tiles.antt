-- ===== src/Walreader/Record/Tiles.antt =====
-- The parts of a decoded record tile it: in order, without gap or overlap, none empty.
use pg_walview.Prelude.{
  ℕ, ◌≤◌, ◌<◌, ◌≡◌, ◌∙◌, refl, sym, ap, List, [], ◌∷◌, length, ltb, arith, All, Bool-cases, inl,
  inr, u64_mod, ltb→lt,
}
use mathlib.Core.Path.{subst}
use pg_walview.Bindings.{Bindings, IsLayout}
use pg_walview.Walreader.Types.{range_is_empty, WalRecordInfo, ok}
use pg_walview.Walreader.Record.{Part, retain_nonempty, first_start, payload_parts, record_parts}
use pg_walview.Walreader.Decode.Payloads.{decode_wal_record}
use pg_walview.Walreader.Decode.PayloadLaws.{Chain}
use pg_walview.Walreader.Decode.Layout.{decode_wal_record-IsDecoded}

abbrev pub NonEmpty : Part → Type 0
NonEmpty (range, p) = range.start < range.end

-- Leaving out empty ranges leaves a chain.
Chain-retain_nonempty :
    (s e : ℕ) (l : List Part)
    → Chain s l e
    → Chain s (retain_nonempty l) e × All NonEmpty (retain_nonempty l)
unfolding retain_nonempty
Chain-retain_nonempty s e [] h = (h, tt)
Chain-retain_nonempty s e ((range, p) ∷ l) (start, order, h) =
    elim (Bool-cases (range_is_empty range)) [
      | inl empty ↦
          let here : range.end ≡ s = ground arith in
          rw (empty, ← here) (Chain-retain_nonempty range.end e l h)
      | inr full ↦
          let (chain, all) = Chain-retain_nonempty range.end e l h in
          rw full ((start, order, chain), (ground arith, all))
    ]

-- A chain starts where its first range does, or else where it ends.
first_start-Chain : (s e : ℕ) (l : List Part) → Chain s l e → first_start l e ≡ s
first_start-Chain s e [] h = omega arith
first_start-Chain s e ((range, p) ∷ l) (start, order, h) = start

module _ (c : Bindings) (layout : IsLayout c) (bytes : List ℕ) (lsn : ℕ)
    (info : WalRecordInfo) where
  tiles_from :
      (s : ℕ)
      → 24 ≤ s
      → info.xlrec.xl_tot_len ≡ length bytes
      → Chain s (payload_parts info) (length bytes) × All NonEmpty (payload_parts info)
      → Chain 0 (record_parts c info) (length bytes) × All NonEmpty (record_parts c info)
  unfolding record_parts
  tiles_from s behind total (chain, all) =
      let size = layout.record_size in
      let from = first_start (payload_parts info) info.xlrec.xl_tot_len in
      let first : from ≡ s =
        ap (first_start (payload_parts info)) total ∙ first_start-Chain s (length bytes) _ chain in
      elim (Bool-cases (ltb c.size_of_xlog_record from)) [
        | inl more ↦
            let below = ltb→lt c.size_of_xlog_record from more in
            rw more (
              (
                refl,
                omega arith,
                (
                  refl,
                  omega arith,
                  subst (λ x. Chain x (payload_parts info) (length bytes)) (sym first) chain,
                ),
              ),
              (omega arith, (below, all)),
            )
        | inr flush ↦
            let at_size : s ≡ c.size_of_xlog_record = ground arith in
            rw flush (
              (
                refl,
                omega arith,
                subst (λ x. Chain x (payload_parts info) (length bytes)) at_size chain,
              ),
              (omega arith, all),
            )
      ]

  -- The parts of a record decoded from a buffer of less than 2^64 bytes, whose header gives the length of
  -- the buffer, follow one another from its first byte to its last, and none of them is empty.
  pub record_parts-Tiles :
      length bytes < u64_mod
      → decode_wal_record c bytes lsn ≡ ok info
      → info.xlrec.xl_tot_len ≡ length bytes
      → Chain 0 (record_parts c info) (length bytes) × All NonEmpty (record_parts c info)
  record_parts-Tiles small decoded total =
      let d = decode_wal_record-IsDecoded c bytes lsn layout small info decoded in
      tiles_from d.descriptors_end d.behind_header total (
        unfold payload_parts in Chain-retain_nonempty d.descriptors_end (length bytes) _ d.payloads)

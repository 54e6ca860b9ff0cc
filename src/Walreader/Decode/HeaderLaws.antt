-- ===== src/Walreader/Decode/HeaderLaws.antt =====
-- The descriptor loop ends, and what its variables mean when it does: the blocks stand in ascending
-- order, `datatotal` is the length of the payloads, and the cursor is inside the buffer.
use pg_walview.Prelude.{
  ℕ, zero, suc, ◌+◌, ◌≤◌, ◌≡◌, refl, Bool, true, false, Option, none, some, List, [], ◌∷◌, ◌++◌,
  length, ltb, leb, ◌==◌, if◌then◌else◌, has_bits, arith, Bool-cases, inl, inr, leb→le, All,
  All-append,
}
use pg_walview.Bindings.{Bindings, RelFileLocator}
use pg_walview.Walmisc.{bkpblock_has_data, bkpblock_has_image, bkpblock_same_rel, xlr_max_block_id}
use pg_walview.Walmisc.Reader
use pg_walview.Walmisc.Reader.{Reader}
use pg_walview.Walreader.Types.{same_rel_not_found, WalBlockData}
use pg_walview.Walreader.Decode.Monad.{◌>>=◌, pure, or_fail, u16}
use pg_walview.Walreader.Decode.Outcome.{
  Sound, Forward, Sound-bind, Sound-pure, Sound-weaken, Sound-err, Sound-reject, Sound-if,
  Sound-step, Forward-refl, Forward-trans, Forward-weaken, u8-Sound, u16-Sound, u32-Sound,
}
use pg_walview.Walreader.Decode.Headers.{
  decode_hole_len, decode_image, decode_optional_image, decode_rlocator, decode_block, Headers,
  no_headers, bimg_len_of, push_block, set_main, decode_header, decode_headers,
}

-- The bytes of a block's payloads.
abbrev pub block_total : WalBlockData → ℕ
block_total block =
    (if has_bits block.flags bkpblock_has_data then block.data_len else 0) + bimg_len_of block.image

abbrev pub blocks_total : List WalBlockData → ℕ
blocks_total [] = 0
blocks_total (block ∷ rest) = block_total block + blocks_total rest

-- The ids rise from `lo` on and stay below `hi`.
abbrev pub Ascending : ℕ → List WalBlockData → ℕ → Type 0
Ascending lo [] hi = lo ≤ hi
Ascending lo (block ∷ rest) hi = (lo ≤ block.block_id) × Ascending (block.block_id + 1) rest hi

pub record IsCounted (h : Headers) : Type 0 where
  pub total : h.datatotal ≡ blocks_total h.blocks + h.main_len
  pub no_main : h.has_main ≡ false → h.main_len ≡ 0
  pub ascending : Ascending 0 h.blocks h.next_block_id
  pub in_range : h.next_block_id ≤ 33
  pub unfilled : All (λ b. b.data_range ≡ none) h.blocks

or_fail-Sound :
    (lsn : ℕ) (o : Option RelFileLocator) (r : Reader)
    → r.pos ≤ length r.buf
    → Sound (λ _. Forward 0 r) (or_fail o (same_rel_not_found lsn) r)
unfolding Sound or_fail
or_fail-Sound lsn none r h = tt
or_fail-Sound lsn (some o) r h = Forward-refl r h

module _ (c : Bindings) (lsn : ℕ) where
  decode_hole_len-Sound :
      (bimg_info bimg_len : ℕ) (r : Reader)
      → r.pos ≤ length r.buf
      → Sound (λ _. Forward 0 r) (decode_hole_len c lsn bimg_info bimg_len r)
  unfolding Sound decode_hole_len u16
  decode_hole_len-Sound bimg_info bimg_len r h = ground arith

  decode_image-Sound :
      (r : Reader) → r.pos ≤ length r.buf → Sound (λ _. Forward 5 r) (decode_image c lsn r)
  unfolding decode_image
  decode_image-Sound r h =
      Sound-step 2 0 _ _ _ r r (u16-Sound lsn r) (Forward-refl r h) λ bimg_len r1 f1.
        Sound-step 2 2 _ _ _ r r1 (u16-Sound lsn r1) f1 λ hole_offset r2 f2.
          Sound-step 1 4 _ _ _ r r2 (u8-Sound lsn r2) f2 λ bimg_info r3 f3.
            Sound-step 0 5 _ _ _ r r3 (decode_hole_len-Sound bimg_info bimg_len r3 (ground arith))
              f3
              λ hole_len r4 f4.
                Sound-reject _ _ _ _ r4
                  λ _. Sound-reject _ _ _ _ r4 λ _. Sound-reject _ _ _ _ r4 λ _. Sound-pure _ _ _ f4

  decode_optional_image-Sound :
      (flags : ℕ) (r : Reader)
      → r.pos ≤ length r.buf
      → Sound (λ _. Forward 0 r) (decode_optional_image c lsn flags r)
  unfolding decode_optional_image
  decode_optional_image-Sound flags r h =
      Sound-if (λ _. Forward 0 r) (has_bits flags bkpblock_has_image) _ _ r
        (λ _.
          Sound-step 5 0 _ _ _ r r (decode_image-Sound r h) (Forward-refl r h)
            λ image r1 f1. Sound-pure _ _ _ (Forward-weaken 5 0 r r1 (omega arith) f1))
        (λ _. Sound-pure _ _ _ (Forward-refl r h))

  decode_rlocator-Sound :
      (flags : ℕ) (previous : Option RelFileLocator) (r : Reader)
      → r.pos ≤ length r.buf
      → Sound (λ _. Forward 0 r) (decode_rlocator c lsn flags previous r)
  unfolding decode_rlocator
  decode_rlocator-Sound flags previous r h =
      Sound-if (λ _. Forward 0 r) (has_bits flags bkpblock_same_rel) _ _ r
        (λ _. or_fail-Sound lsn previous r h)
        λ _. Sound-step 4 0 _ _ _ r r (u32-Sound lsn r) (Forward-refl r h) λ spc r1 f1.
          Sound-step 4 4 _ _ _ r r1 (u32-Sound lsn r1) f1 λ db r2 f2.
            Sound-step 4 8 _ _ _ r r2 (u32-Sound lsn r2) f2
              λ rel r3 f3. Sound-pure _ _ _ (Forward-weaken 12 0 r r3 (omega arith) f3)

  -- A decoded block has the id it was given, and a data length only with `BKPBLOCK_HAS_DATA`.
  abbrev IsBlock : ℕ → WalBlockData → Type 0
  IsBlock block_id block =
      (block.block_id ≡ block_id)
      × (block.data_len ≡ (if has_bits block.flags bkpblock_has_data then block.data_len else 0))
      × (block.data_range ≡ none)

  decode_block-Sound :
      (block_id : ℕ) (previous : Option RelFileLocator) (r : Reader)
      → r.pos ≤ length r.buf
      → Sound
          (λ block r'. IsBlock block_id block × Forward 0 r r')
          (decode_block c lsn block_id previous r)
  unfolding decode_block
  decode_block-Sound block_id previous r h =
      Sound-step 1 0 _ _ _ r r (u8-Sound lsn r) (Forward-refl r h) λ flags r1 f1.
        Sound-step 2 1 _ _ _ r r1 (u16-Sound lsn r1) f1 λ data_len r2 f2.
          Sound-reject _ _ _ _ r2 λ g1. Sound-reject _ _ _ _ r2 λ g2.
            Sound-step 0 3 _ _ _ r r2 (decode_optional_image-Sound flags r2 (ground arith)) f2
              λ image r3 f3.
                Sound-step 0 3 _ _ _ r r3 (decode_rlocator-Sound flags previous r3 (ground arith))
                  f3
                  λ rlocator r4 f4.
                    Sound-step 4 3 _ _ _ r r4 (u32-Sound lsn r4) f4
                      λ blocknum r5 f5. Sound-pure _ _ _ ((refl, ground arith, refl), ground arith)

pub no_headers-IsCounted : IsCounted no_headers
no_headers-IsCounted = record {
  total = refl;
  no_main = λ _. refl;
  ascending = omega arith;
  in_range = omega arith;
  unfilled = tt;
}

Ascending-snoc :
    (lo : ℕ) (blocks : List WalBlockData) (hi : ℕ) (block : WalBlockData)
    → Ascending lo blocks hi
    → hi ≤ block.block_id
    → Ascending lo (blocks ++ block ∷ []) (block.block_id + 1)
Ascending-snoc lo [] hi block h p = omega arith
Ascending-snoc lo (b ∷ blocks) hi block (p, h) q =
    (p, Ascending-snoc (b.block_id + 1) blocks hi block h q)

blocks_total-snoc :
    (blocks : List WalBlockData) (block : WalBlockData)
    → blocks_total (blocks ++ block ∷ []) ≡ blocks_total blocks + block_total block
blocks_total-snoc [] block = omega arith
blocks_total-snoc (b ∷ blocks) block = omega (arith, blocks_total-snoc blocks block)

push_block-IsCounted :
    (c : Bindings) (lsn : ℕ) (h : Headers) (block_id : ℕ) (block : WalBlockData)
    → IsCounted h
    → h.has_main ≡ false
    → h.next_block_id ≤ block_id
    → block_id ≤ 32
    → IsBlock c lsn block_id block
    → IsCounted (push_block h block)
push_block-IsCounted c lsn h block_id block k open_ order small (same, len, empty) = record {
  total = omega (arith, blocks_total-snoc h.blocks block, k.total, k.no_main open_, len);
  no_main = k.no_main;
  ascending = Ascending-snoc 0 h.blocks h.next_block_id block k.ascending (omega arith);
  in_range = omega arith;
  unfilled = All-append (λ b. b.data_range ≡ none) h.blocks (block ∷ []) k.unfilled (empty, tt);
}

set_main-IsCounted :
    (h : Headers) (len : ℕ) → IsCounted h → h.has_main ≡ false → IsCounted (set_main h len)
set_main-IsCounted h len k open_ = record {
  total = omega (arith, k.total, k.no_main open_);
  no_main = λ e. cc;
  ascending = k.ascending;
  in_range = k.in_range;
  unfilled = k.unfilled;
}

origin-IsCounted :
    (h : Headers) (origin : Option ℕ) → IsCounted h → IsCounted (record h { origin = origin })
origin-IsCounted h origin k = record {
  total = k.total;
  no_main = k.no_main;
  ascending = k.ascending;
  in_range = k.in_range;
  unfilled = k.unfilled;
}

top_xid-IsCounted :
    (h : Headers) (xid : Option ℕ) → IsCounted h → IsCounted (record h { top_xid = xid })
top_xid-IsCounted h xid k = record {
  total = k.total;
  no_main = k.no_main;
  ascending = k.ascending;
  in_range = k.in_range;
  unfilled = k.unfilled;
}

-- The loop goes on only with the main data still to come.
abbrev pub Round : Reader → Headers × Bool → Reader → Type 0
Round r (h, more) r' = IsCounted h × (more ≡ true → h.has_main ≡ false) × Forward 1 r r'

module _ (c : Bindings) (lsn : ℕ) where
  reference-Sound :
      (h : Headers) (block_id : ℕ) (r s : Reader)
      → IsCounted h
      → h.has_main ≡ false
      → leb block_id xlr_max_block_id ≡ true
      → ltb block_id h.next_block_id ≡ false
      → Forward 1 r s
      → Sound
          (Round r)
          ((do block ← decode_block c lsn block_id h.rlocator; pure (push_block h block, true)) s)
  reference-Sound h block_id r s k open_ small order f =
      Sound-bind _ (Round r) (decode_block c lsn block_id h.rlocator s) _
        (decode_block-Sound c lsn block_id h.rlocator s (ground arith))
        λ block t (isBlock, g).
          Sound-pure (Round r) (push_block h block, true) t
            (
              push_block-IsCounted c lsn h block_id block k open_ (ground arith) (leb→le _ _ small)
                  isBlock,
              (λ _. open_),
              Forward-trans 1 0 r s t f g,
            )

  decode_header-Sound :
      (h : Headers) (r : Reader)
      → IsCounted h
      → h.has_main ≡ false
      → r.pos ≤ length r.buf
      → Sound (Round r) (decode_header c lsn h r)
  unfolding decode_header
  decode_header-Sound h r k open_ inside =
      Sound-step 1 0 (Round r) _ _ r r (u8-Sound lsn r) (Forward-refl r inside) λ block_id r1 f1.
        Sound-if (Round r) (block_id == 255) _ _ r1
          (λ _. Sound-step 1 1 (Round r) _ _ r r1 (u8-Sound lsn r1) f1 λ len r2 f2.
            Sound-pure (Round r) (set_main h len, false) r2
              (
                set_main-IsCounted h len k open_,
                (λ e. cc),
                Forward-weaken 2 1 r r2 (omega arith) f2,
              ))
          λ _.
            Sound-if (Round r) (block_id == 254) _ _ r1
              (λ _. Sound-step 4 1 (Round r) _ _ r r1 (u32-Sound lsn r1) f1 λ len r2 f2.
                Sound-pure (Round r) (set_main h len, false) r2
                  (
                    set_main-IsCounted h len k open_,
                    (λ e. cc),
                    Forward-weaken 5 1 r r2 (omega arith) f2,
                  ))
              λ _.
                Sound-if (Round r) (block_id == 253) _ _ r1
                  (λ _. Sound-step 2 1 (Round r) _ _ r r1 (u16-Sound lsn r1) f1 λ origin r2 f2.
                    Sound-pure (Round r) (record h { origin = some origin }, true) r2
                      (
                        origin-IsCounted h (some origin) k,
                        (λ _. open_),
                        Forward-weaken 3 1 r r2 (omega arith) f2,
                      ))
                  λ _.
                    Sound-if (Round r) (block_id == 252) _ _ r1
                      (λ _. Sound-step 4 1 (Round r) _ _ r r1 (u32-Sound lsn r1) f1 λ xid r2 f2.
                        Sound-pure (Round r) (record h { top_xid = some xid }, true) r2
                          (
                            top_xid-IsCounted h (some xid) k,
                            (λ _. open_),
                            Forward-weaken 5 1 r r2 (omega arith) f2,
                          ))
                      λ _.
                        Sound-if (Round r) (leb block_id 32) _ _ r1
                          (λ small.
                            Sound-reject (Round r) (ltb block_id h.next_block_id) _ _ r1
                              λ order. reference-Sound h block_id r r1 k open_ small order f1)
                          λ _. Sound-err (Round r) _

  -- Behind a round of the loop stand the rounds with one unit of fuel less.
  rest-Sound :
      (fuel : ℕ) (r : Reader)
      → length r.buf ≤ r.pos + suc fuel
      → ((h : Headers) (s : Reader)
          → IsCounted h
          → h.has_main ≡ false
          → s.pos ≤ length s.buf
          → length s.buf ≤ s.pos + fuel
          → Sound (λ h' r'. IsCounted h' × Forward 0 s r') (decode_headers c lsn fuel h s))
      → (hm : Headers × Bool) (s : Reader) → Round r hm s
      → Sound
          (λ h' r'. IsCounted h' × Forward 0 r r')
          ((if hm.1 then decode_headers c lsn fuel hm.0 else pure hm.0) s)
  rest-Sound fuel r enough ih (h, true) s (k, further, f) =
      Sound-weaken _ (λ h' r'. IsCounted h' × Forward 0 s r') (decode_headers c lsn fuel h s)
        (ih h s k (further refl) (ground arith) (ground arith))
        λ h' t (k', g). (k', Forward-weaken 1 0 r t (omega arith) (Forward-trans 1 0 r s t f g))
  rest-Sound fuel r enough ih (h, false) s (k, further, f) =
      Sound-pure _ h s (k, Forward-weaken 1 0 r s (omega arith) f)

  pub decode_headers-Sound :
      (fuel : ℕ) (h : Headers) (r : Reader)
      → IsCounted h
      → h.has_main ≡ false
      → r.pos ≤ length r.buf
      → length r.buf ≤ r.pos + fuel
      → Sound (λ h' r'. IsCounted h' × Forward 0 r r') (decode_headers c lsn fuel h r)
  unfolding decode_headers
  decode_headers-Sound zero h r k open_ inside enough =
      elim (Bool-cases (ltb h.datatotal (Reader.remaining r))) [
        | inl e ↦ absurd (unfold Reader.remaining in ground arith)
        | inr e ↦ rw e (Sound-pure _ h r (k, Forward-refl r inside))
      ]
  decode_headers-Sound (suc fuel) h r k open_ inside enough =
      elim (Bool-cases (ltb h.datatotal (Reader.remaining r))) [
        | inl e ↦ rw e (
            Sound-bind (Round r) _ (decode_header c lsn h r) _
              (decode_header-Sound h r k open_ inside)
              (rest-Sound fuel r enough (decode_headers-Sound fuel)))
        | inr e ↦ rw e (Sound-pure _ h r (k, Forward-refl r inside))
      ]

-- ===== src/Walmisc/Reader/Laws.antt =====
-- What the byte reader makes of a number that has been written.
use pg_walview.Prelude.{
  ℕ, ◌+◌, ◌^◌, ◌<◌, ◌≡◌, ◌∙◌, refl, ap, true, none, some, List, ◌++◌, length, take, slice,
  length-append, length-take, take-append_length, drop-append_length, leb, lt→leb, arith,
}
use pg_walview.Walmisc.Words.{
  from_le_bytes, to_le_bytes, from_le_bytes-to_le_bytes, length-to_le_bytes,
}
use pg_walview.Walmisc.Reader.{read_le}

written_there :
    (w v : ℕ) (front rest : List ℕ)
    → slice (length front) w (front ++ (to_le_bytes w v ++ rest)) ≡ to_le_bytes w v
written_there w v front rest =
    ap (λ l. take w l) (drop-append_length front (to_le_bytes w v ++ rest))
    ∙ ap (λ n. take n (to_le_bytes w v ++ rest)) {x = w} {y = length (to_le_bytes w v)}
        (omega (arith, length-to_le_bytes w v))
    ∙ take-append_length (to_le_bytes w v) rest

-- A number that fits the width, written with its lowest byte first: a read there gives the number and
-- moves behind it. Where any of its bytes are cut off, a read gives nothing and moves nothing.
pub read_le-to_le_bytes :
    (w v : ℕ) (front rest : List ℕ)
    → v < 256 ^ w
    → (read_le w (record { buf = front ++ (to_le_bytes w v ++ rest); pos = length front })
        ≡ (some v, record { buf = front ++ (to_le_bytes w v ++ rest); pos = length front + w }))
      × ((k : ℕ)
          → k < w
          → read_le w (record { buf = front ++ take k (to_le_bytes w v); pos = length front })
            ≡ (none, record { buf = front ++ take k (to_le_bytes w v); pos = length front }))
unfolding read_le
read_le-to_le_bytes w v front rest fits =
    let whole = to_le_bytes w v ++ rest in
    let size = length-to_le_bytes w v in
    let value : from_le_bytes (slice (length front) w (front ++ whole)) ≡ v =
      ap (λ l. from_le_bytes l) (written_there w v front rest)
      ∙ from_le_bytes-to_le_bytes w v fits in
    let room : leb (length front + w) (length (front ++ whole)) ≡ true =
      ground (arith, size, length-append front whole, length-append (to_le_bytes w v) rest) in
    (
      rw (room, value) refl,
      λ k cut.
          let cut_off = take k (to_le_bytes w v) in
          rw
            (lt→leb (length front + w) (length (front ++ cut_off))
              (omega (arith, length-append front cut_off, length-take k (to_le_bytes w v), size)))
            refl,
    )

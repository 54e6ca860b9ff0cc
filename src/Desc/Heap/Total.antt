-- ===== src/Desc/Heap/Total.antt =====
-- The describing functions of src/heapdesc.rs return.
use pg_walview.Prelude.{
  ℕ, ◌+◌, Bool, true, false, Option, none, some, List, [], length, slice, get_or, ltb,
  if◌then◌else◌, Bool-cases, inl, inr, arith, ◌≤◌, ◌<◌, ◌≡◌, refl, ap, le→leb, lt→ltb,
}
use pg_walview.Walmisc.Reader.{Reader, new, read_u8, read_le, read_u16_le}
use pg_walview.Desc.Reading.{Text, ◌>>=◌, run_on, unwrap, unwrapped}
use pg_walview.Walmisc.Words.{from_le_bytes}
use pg_walview.Desc.Reading.Safe.{
  Safe, safe_rules, bind-Safe, pure-Safe, peek-Safe, then-Safe, skip_bytes-Safe, field_u8-Safe,
  field_bool-Safe, field_u16-Safe, field_u32-Safe, field_i32-Safe, panics_on_none-Safe,
}
use pg_walview.Desc.Heap.{
  header_fields, parse_xl_heap_header, old_header, insert_lines, delete_lines, update_lines,
  truncate_lines, confirm_lines, lock_lines, inplace_lines, unknown_lines, lines_of, insert, delete,
  update, truncate, hot_update, confirm, lock, inplace, unknown, HeapOp,
}

unwrap_le :
    (w : ℕ) (r : Reader)
    → r.pos + w ≤ length r.buf
    → (v : ℕ) × (unwrap (read_le w) r ≡ some (v, record r { pos = r.pos + w }))
unfolding unwrap read_le
unwrap_le w r room =
    let v = from_le_bytes (slice r.pos w r.buf) in
    let taken : Option ℕ × Reader = (some v, record r { pos = r.pos + w }) in
    (
      v,
      ap (λ b. unwrapped (if b then taken else (none, r))) (le→leb (r.pos + w) (length r.buf) room),
    )

unwrap_u8 :
    (r : Reader)
    → r.pos < length r.buf
    → (v : ℕ) × (unwrap read_u8 r ≡ some (v, record r { pos = r.pos + 1 }))
unfolding unwrap read_u8
unwrap_u8 r room =
    let v = get_or r.buf r.pos 0 in
    let taken : Option ℕ × Reader = (some v, record r { pos = r.pos + 1 }) in
    (v, ap (λ b. unwrapped (if b then taken else (none, r))) (lt→ltb r.pos (length r.buf) room))

-- Five bytes are enough for the header.
pub parse_xl_heap_header-some :
    (bytes : List ℕ)
    → (p : List Text × ℕ) × (parse_xl_heap_header bytes ≡ some p) × (p.1 ≤ length bytes)
unfolding parse_xl_heap_header run_on header_fields read_u16_le new
parse_xl_heap_header-some bytes = elim (Bool-cases (ltb (length bytes) 5)) [
  | inl e ↦ rw e (_, refl, omega arith)
  | inr e ↦
      let enough : 5 ≤ length bytes = ground arith in
      let (a, first) = unwrap_le 2 (record { buf = bytes; pos = 0 }) (omega (arith, enough)) in
      let (b, second) = unwrap_le 2 (record { buf = bytes; pos = 0 + 2 }) (omega (arith, enough)) in
      let (c, third) =
        unwrap_u8 (record { buf = bytes; pos = 0 + 2 + 2 }) (omega (arith, enough)) in
      rw (e, first, ◌>>=◌, second, ◌>>=◌, third) (_, refl, enough)
]

old_header-Safe : (b : Bool) → Safe (old_header b)
unfolding old_header
old_header-Safe false = pure-Safe []
old_header-Safe true = bind-Safe (peek-Safe 5 (omega arith)) λ bytes.
    let (p, e, short) = parse_xl_heap_header-some bytes in
    bind-Safe (panics_on_none-Safe (parse_xl_heap_header bytes) p e) (λ header. pure-Safe _)

update_lines-Safe : Safe (update_lines)
unfolding update_lines
update_lines-Safe = bind-Safe field_u32-Safe (λ old_xmax. bind-Safe field_u16-Safe (λ old_offnum.
    bind-Safe field_u8-Safe (λ old_infobits. bind-Safe field_u8-Safe (λ flags.
      bind-Safe field_u32-Safe (λ new_xmax.
        bind-Safe field_u16-Safe
          (λ new_offnum. bind-Safe (old_header-Safe _) (λ header. pure-Safe _)))))))

inplace_lines-Safe : Safe (inplace_lines)
unfolding inplace_lines
inplace_lines-Safe = bind-Safe field_u16-Safe (λ offnum. then-Safe (skip_bytes-Safe 2) (
    bind-Safe field_u32-Safe (λ db_id. bind-Safe field_u32-Safe (λ ts_id.
      bind-Safe field_bool-Safe (λ relcache_inval.
        then-Safe (skip_bytes-Safe 3) (bind-Safe field_i32-Safe (λ nmsgs. pure-Safe _)))))))

pub lines_of-Safe : (info : ℕ) (main : List ℕ) (op : HeapOp) → Safe (lines_of info main op)
unfolding lines_of insert_lines delete_lines truncate_lines confirm_lines lock_lines unknown_lines
lines_of-Safe info main insert = search safe_rules depth 60 fits 4000
lines_of-Safe info main delete = search (safe_rules, old_header-Safe) depth 60 fits 4000
lines_of-Safe info main update = update_lines-Safe
lines_of-Safe info main hot_update = update_lines-Safe
lines_of-Safe info main truncate = search safe_rules depth 60 fits 4000
lines_of-Safe info main confirm = search safe_rules depth 60 fits 4000
lines_of-Safe info main lock = search safe_rules depth 60 fits 4000
lines_of-Safe info main inplace = inplace_lines-Safe
lines_of-Safe info main unknown = search safe_rules depth 60 fits 4000

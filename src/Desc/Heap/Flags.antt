-- ===== src/Desc/Heap/Flags.antt =====
-- The flags that src/heapdesc.rs prints by name.
use pg_walview.Prelude.{ℕ, List, [], ◌∷◌, ◌++◌, bit_and}
use pg_walview.Prelude.Digits.{codes, lower_hex}
use pg_walview.Desc.Reading.{Text, num, names_of, join, flags_text}

abbrev pub heap_insert_flags_names : List (ℕ × Text)
heap_insert_flags_names =
    (0x1, codes "ALL_VISIBLE_CLEARED")
    ∷ (0x2, codes "LAST_IN_MULTI")
    ∷ (0x4, codes "IS_SPECULATIVE")
    ∷ (0x8, codes "CONTAINS_NEW_TUPLE")
    ∷ (0x10, codes "ON_TOAST_RELATION")
    ∷ (0x20, codes "ALL_FROZEN_SET")
    ∷ []

unfoldable pub decode_heap_insert_flags : ℕ → Text
decode_heap_insert_flags = flags_text heap_insert_flags_names (codes " | ") 2

abbrev pub infobits_names : List (ℕ × Text)
infobits_names =
    (0x1, codes "XMAX_IS_MULTI")
    ∷ (0x2, codes "XMAX_LOCK_ONLY")
    ∷ (0x4, codes "XMAX_EXCL_LOCK")
    ∷ (0x8, codes "XMAX_KEYSHR_LOCK")
    ∷ (0x10, codes "KEYS_UPDATED")
    ∷ []

unfoldable pub decode_infobits : ℕ → Text
decode_infobits = flags_text infobits_names (codes " | ") 2

abbrev pub heap_delete_flags_names : List (ℕ × Text)
heap_delete_flags_names =
    (0x1, codes "ALL_VISIBLE_CLEARED")
    ∷ (0x2, codes "CONTAINS_OLD_TUPLE")
    ∷ (0x4, codes "CONTAINS_OLD_KEY")
    ∷ (0x8, codes "IS_SUPER")
    ∷ (0x10, codes "IS_PARTITION_MOVE")
    ∷ []

unfoldable pub decode_heap_delete_flags : ℕ → Text
decode_heap_delete_flags = flags_text heap_delete_flags_names (codes " | ") 2

abbrev pub heap_update_flags_names : List (ℕ × Text)
heap_update_flags_names =
    (0x1, codes "OLD_ALL_VISIBLE_CLEARED")
    ∷ (0x2, codes "NEW_ALL_VISIBLE_CLEARED")
    ∷ (0x4, codes "CONTAINS_OLD_TUPLE")
    ∷ (0x8, codes "CONTAINS_OLD_KEY")
    ∷ (0x10, codes "CONTAINS_NEW_TUPLE")
    ∷ (0x20, codes "PREFIX_FROM_OLD")
    ∷ (0x40, codes "SUFFIX_FROM_OLD")
    ∷ []

unfoldable pub decode_heap_update_flags : ℕ → Text
decode_heap_update_flags = flags_text heap_update_flags_names (codes " | ") 2

abbrev pub t_infomask_names : List (ℕ × Text)
t_infomask_names =
    (0x1, codes "HASNULL")
    ∷ (0x2, codes "HASVARWIDTH")
    ∷ (0x4, codes "HASEXTERNAL")
    ∷ (0x8, codes "HASOID_OLD")
    ∷ (0x10, codes "XMAX_KEYSHR_LOCK")
    ∷ (0x20, codes "COMBOCID")
    ∷ (0x40, codes "XMAX_EXCL_LOCK")
    ∷ (0x80, codes "XMAX_LOCK_ONLY")
    ∷ (0x100, codes "XMIN_COMMITTED")
    ∷ (0x200, codes "XMIN_INVALID")
    ∷ (0x400, codes "XMAX_COMMITTED")
    ∷ (0x800, codes "XMAX_INVALID")
    ∷ (0x1000, codes "XMAX_IS_MULTI")
    ∷ (0x2000, codes "UPDATED")
    ∷ (0x4000, codes "MOVED_OFF")
    ∷ (0x8000, codes "MOVED_IN")
    ∷ []

unfoldable pub decode_t_infomask : ℕ → Text
decode_t_infomask = flags_text t_infomask_names (codes "|") 4

abbrev pub t_infomask2_names : List (ℕ × Text)
t_infomask2_names =
    (0x800, codes "KEYS_UPDATED")
    ∷ (0x1000, codes "HOT_UPDATED")
    ∷ (0x2000, codes "ONLY_FROZEN")
    ∷ (0x4000, codes "NOT_ONLY_FROZEN")
    ∷ (0x8000, codes "HEAP_ONLY")
    ∷ []

abbrev or_dash : List Text → Text
or_dash [] = codes "-"
or_dash (name ∷ names) = join (codes "|") (name ∷ names)

unfoldable pub decode_t_infomask2 : ℕ → Text
decode_t_infomask2 mask =
    codes "0x"
    ++ lower_hex 4 mask
    ++ codes " (natts="
    ++ num (bit_and mask 0x7FF)
    ++ codes ", "
    ++ or_dash (names_of t_infomask2_names mask)
    ++ codes ")"

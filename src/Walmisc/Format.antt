-- ===== src/Walmisc/Format.antt =====
-- `lsn_format` and `format_rel` of src/walmisc.rs.
use pg_walview.Prelude.{ℕ, ◌/◌, ◌%◌, ◌++◌, List, u32_mod}
use pg_walview.Prelude.Digits.{codes, upper_hex, decimal}
use pg_walview.Bindings.{RelFileLocator}

-- `{:X}/{:08X}` of the two halves.
unfoldable pub lsn_format : ℕ → List ℕ
lsn_format lsn = upper_hex 1 (lsn / u32_mod % u32_mod) ++ codes "/" ++ upper_hex 8 (lsn % u32_mod)

unfoldable pub format_rel : RelFileLocator → List ℕ
format_rel r =
    decimal 1 r.spc_oid ++ codes "/" ++ decimal 1 r.db_oid ++ codes "/" ++ decimal 1 r.rel_number

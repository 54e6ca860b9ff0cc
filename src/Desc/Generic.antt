-- ===== src/Desc/Generic.antt =====
-- src/genericdesc.rs: the low digit of the info byte counts the pages.
use pg_walview.Prelude.{ℕ, ◌++◌, [], bit_and, ◌==◌, if◌then◌else◌}
use pg_walview.Prelude.Digits.{codes}
use pg_walview.Desc.Reading.{Text, num}

pub record GenericOp : Type 0 where
  pub page_count : ℕ

unfoldable pub from_xl_info : ℕ → GenericOp
from_xl_info info = record { page_count = bit_and info 0x0F }

-- `Display`
unfoldable pub display : GenericOp → Text
display op =
    codes "MODIFY("
    ++ num op.page_count
    ++ codes " page"
    ++ (if op.page_count == 1 then [] else codes "s")
    ++ codes ")"

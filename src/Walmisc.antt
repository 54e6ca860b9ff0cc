-- ===== src/Walmisc.antt =====
-- src/walmisc.rs: the constants of the WAL format, alignment, and the byte reader.
pub mod Reader
pub mod Words
pub mod Format
pub mod Calendar
use pg_walview.Prelude.{ℕ, ◌+◌, ◌-◌, ◌*◌, ◌/◌, ◌%◌, ◌≤◌, ◌<◌, ◌≡◌, Bool, has_bits, bit_or, arith}

abbrev pub xlp_first_is_contrecord : ℕ
xlp_first_is_contrecord = 0x0001

abbrev pub xlp_long_header : ℕ
xlp_long_header = 0x0002

abbrev pub xlp_all_flags : ℕ
xlp_all_flags = 0x0007

abbrev pub xlr_max_block_id : ℕ
xlr_max_block_id = 32

abbrev pub xlr_block_id_data_short : ℕ
xlr_block_id_data_short = 255

abbrev pub xlr_block_id_data_long : ℕ
xlr_block_id_data_long = 254

abbrev pub xlr_block_id_origin : ℕ
xlr_block_id_origin = 253

abbrev pub xlr_block_id_toplevel_xid : ℕ
xlr_block_id_toplevel_xid = 252

abbrev pub bkpblock_fork_mask : ℕ
bkpblock_fork_mask = 0x0F

abbrev pub bkpblock_has_image : ℕ
bkpblock_has_image = 0x10

abbrev pub bkpblock_has_data : ℕ
bkpblock_has_data = 0x20

abbrev pub bkpblock_same_rel : ℕ
bkpblock_same_rel = 0x80

abbrev pub bkpimage_has_hole : ℕ
bkpimage_has_hole = 0x01

abbrev pub bkpimage_apply : ℕ
bkpimage_apply = 0x02

abbrev pub bkpimage_compress_pglz : ℕ
bkpimage_compress_pglz = 0x04

abbrev pub bkpimage_compress_lz4 : ℕ
bkpimage_compress_lz4 = 0x08

abbrev pub bkpimage_compress_zstd : ℕ
bkpimage_compress_zstd = 0x10

unfoldable pub bkpimage_compressed : ℕ → Bool
bkpimage_compressed bimg_info =
    has_bits bimg_info
      (bit_or (bit_or bkpimage_compress_pglz bkpimage_compress_lz4) bkpimage_compress_zstd)

abbrev pub xlog_record_max_size : ℕ
xlog_record_max_size = 1020 * 1024 * 1024

abbrev pub maximum_alignof : ℕ
maximum_alignof = 8

-- `n.next_multiple_of(8)`
unfoldable pub maxalign : ℕ → ℕ
maxalign n = (n + (maximum_alignof - 1)) / maximum_alignof * maximum_alignof

abbrev pub first_normal_transaction_id : ℕ
first_normal_transaction_id = 3

-- `maxalign` gives a multiple of 8 that is not below its argument, nor above any multiple of 8 that is
-- not below its argument.
pub maxalign_least :
    (n m : ℕ) → n ≤ m → m % 8 ≡ 0 → (maxalign n % 8 ≡ 0) × (n ≤ maxalign n) × (maxalign n ≤ m)
unfolding maxalign
maxalign_least n m p q = (omega arith, omega arith, omega arith)

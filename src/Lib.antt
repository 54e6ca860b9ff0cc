-- ===== src/Lib.antt =====
-- pg_walview: a viewer for one segment file of the write-ahead log of PostgreSQL.
--
-- The program reads a segment page by page (`WALReader` in src/walreader.rs), finds the records in it,
-- copies each one out of the pages that it crosses, decodes it and checks its CRC-32C. The records go
-- to the viewer (`App` in src/main.rs), which keeps a selection in the list of records, an accordion
-- of the selected record's parts, and a hex dump of the file in which those parts are marked.
--
-- Which module models what:
--   Crc32c (src/crc32c.rs): `Table` has the table and the incremental register, `Serial` the bit-serial
--   CRC to compare with.
--   Walmisc (src/walmisc.rs): constants, `maxalign`, and in `Reader` the byte reader. A method of
--   `Reader` returns its result and the reader that it leaves; `take` is `take_bytes`. `Format` prints
--   LSNs and relations, `Calendar` timestamps; `Calendar.Era`, `Days`, `NextDay` and `Moments` are the
--   proofs on the calendar.
--   Bindings: the structs and constants that the build generates from the PostgreSQL headers, a
--   parameter. `IsLayout` states the sizes that the source relies on, and that the length of a record
--   is its first word; `postgres18` is an instance of it.
--   Walreader.Types and Walreader.Record (src/walreader.rs): errors, decoded records, their parts, and
--   the map from ranges of a record to ranges of the file.
--   Walreader.Decode: `decode_wal_record`; `Headers` its loop over the headers, `Payloads` its second
--   half; the other modules under it are the proofs.
--   Walreader.Pages and Walreader.Scan: the state of `WALReader`, its page arithmetic, and its methods;
--   `load_next_record` is composed of `find_next_record`, `load_record`, `load_body` and
--   `finish_record`, the stretches of its body between one early return and the next. A method returns
--   its result and the reader, since what is written before an error stays written. `Scan.Content` and
--   `Scan.Begins` describe independently of the code, byte by byte and page by page, where the content
--   of records lies and where records begin; the other modules under it are the proofs.
--   Rmgr (src/rmgr.rs, src/xactdesc.rs): resource managers and the operations of transaction records.
--   Desc (src/walmain.rs and the modules src/*desc.rs): the descriptions of the payloads. `Reading` is
--   the byte reader as the descriptions use it, where `none` is a panic; a module for each resource
--   manager has its operations, their names and the lines of its records, `Heap.Flags` the flags of
--   heap records and `Heap.BlockData` the lines of a block; `Dispatch` chooses among them. `Safe` and `Total` tell which of them never panic.
--   Tui (src/main.rs): `DetailTree`, `App` with the key handlers in `Keys`, and `HexDump`. The list
--   widget's own state is the parameter `TableStates`. `Open` is `App::new`. `View` and
--   `Details` are the methods of `App` that draw the panes: a pane is drawn as the rows or lines that
--   it shows and where they begin. `Theme` (src/theme.rs) has the styles, over the interface `Toolkit`;
--   `HexDump.Styles` and `HexDump.Lines` are the styles of the bytes and the spans of a line.
--   CommandLine (src/main.rs): `parse_args`.
--   Prelude: lists, options and numbers for all of these; `Digits` prints numbers, `Int` has integers.
--   Tests: runs on a small file, and the theorems at concrete inputs.
--
-- Numbers are natural numbers; the wrap-around of a machine word is written out where the source can
-- reach it, and a subtraction that the source does not guard is one that cannot go below zero. The
-- file is a list of bytes in memory, and a read past its end is an I/O error.
--
-- Loops run on fuel and return `stuck` without it. The decoder's fuel is the length of the record, as
-- each round of its loop reads a byte; copying takes two rounds for each byte at most, a page boundary
-- and a piece; the search for the next record takes a round for each page; and the loop over the
-- records takes no more rounds than the file has bytes, where the file is shorter than its segment. In
-- a segment that is all there the loop of the source need not end, and the fuel is then used up.
--
-- The descriptions are those of a release build, where a sum wraps round and a cast keeps the low bits;
-- their buffers are shorter than 2^63 bytes, as slices are. The texts that the source prints in debug
-- form, which escape what is no plain character, are the parameter `quoted`.
--
-- Not modelled: the terminal, its widgets and its layout; the texts of help, version and errors, and the
-- labels of the panes; and `WALReader::open`, which takes the number of the segment from the name of the
-- file. The details pane takes the lines of the descriptions as a parameter, `Descriptions`.
pub mod Prelude
pub mod Crc32c
pub mod Walmisc
pub mod Bindings
pub mod Walreader
pub mod Rmgr
pub mod Tui
pub mod Desc
pub mod CommandLine
pub mod Tests

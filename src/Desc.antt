-- ===== src/Desc.antt =====
-- The descriptions of records, src/walmain.rs and the modules for each resource manager: what kind
-- of record it is, and the lines below its data in the viewer. The source's reader is passed on from
-- read to read; `none` is a panic of the source.
pub mod Reading
pub mod Xlog
pub mod Smgr
pub mod Clog
pub mod Database
pub mod Tablespace
pub mod MultiXact
pub mod Relmap
pub mod Standby
pub mod Heap
pub mod Heap2
pub mod Btree
pub mod Hash
pub mod Gin
pub mod Gist
pub mod Sequence
pub mod SpGist
pub mod Brin
pub mod CommitTs
pub mod ReplOrigin
pub mod LogicalMsg
pub mod Xact
pub mod Generic
pub mod Dispatch

-- ===== src/Tui.antt =====
-- src/main.rs, the viewer: the tree of the DETAILS pane, the state of the application and its keys, the
-- hex dump, what the panes show, and the opening of a file.
pub mod DetailTree
pub mod App
pub mod Theme
pub mod HexDump
pub mod View
pub mod Details
pub mod Open

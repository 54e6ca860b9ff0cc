-- ===== src/Tests.antt =====
-- Concrete runs of the code, and the theorems at concrete inputs.
mod Data
mod Scanning
mod Records
mod Viewer
mod Panes
mod Opening
mod Dump
mod Texts
mod Descriptions

-- ===== src/Docs.antt =====
-- The scripts of the published documentation pages, docs/dokka/scripts.
pub mod Names
pub mod Texts
pub mod Page
pub mod Tabs
pub mod Filter
pub mod Sections
pub mod Navigation
pub mod Clipboard
pub mod Theme
pub mod Selector
pub mod Anchors
pub mod Load
pub mod Visit

-- ===== src/Config.antt =====
-- The configuration: src/parser.c and include/mono/parser.h.
pub mod Lua
pub mod Types
pub mod Colors
pub mod Sections
pub mod Bindings
pub mod Arrays
pub mod Combo
pub mod Printing
pub mod Load
pub mod Transaction
pub mod Bounds
pub mod Sizes
pub mod Input
pub mod Watch
pub mod Following
pub mod Sample
pub mod Examples
pub mod Errors

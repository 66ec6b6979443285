-- ===== src/Dwindle.antt =====
-- The dwindle layout: a binary tree of splits for each tag of a monitor (src/main.c).
pub mod Tree
pub mod Walk
pub mod Edit
pub mod Remove
pub mod Insert
pub mod Sweep
pub mod Fill
pub mod Recalc
pub mod Tiling
pub mod Examples
pub mod Moving

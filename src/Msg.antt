-- ===== src/Msg.antt =====
-- The command line client tools/monomsg/src/main.c.
pub mod Parse
pub mod Edits
pub mod Examples
pub mod Bounds
pub mod Print
pub mod Relay
pub mod Relayed
pub mod Heard
pub mod Others
pub mod Leftover
pub mod Runs

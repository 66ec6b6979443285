-- ===== src/Seat.antt =====
-- Who has the keyboard: the session lock, layer surfaces and key presses of src/main.c.
pub mod Session
pub mod Layers
pub mod Keyboard
pub mod Guarded
pub mod Covered
pub mod Background
pub mod Resting
pub mod Windows
pub mod Serving
pub mod Outputs
pub mod Plugged
pub mod Silent
pub mod Locked
mod Examples

-- ===== src/Wm.antt =====
-- The window manager proper: tags, views, focus and the arrangement of windows (src/main.c).
pub mod State
pub mod Focus
pub mod Arrange
pub mod Tags
pub mod Kept
pub mod Views
pub mod Showing
pub mod Shifting
pub mod Places
pub mod Examples
pub mod Safe
pub mod Windows
pub mod Actions
pub mod Moves
pub mod Homes
pub mod Evicting
pub mod Closed
pub mod Steps
pub mod Closing
pub mod Ipc
pub mod Toggles
pub mod Directions
pub mod Swapping
pub mod Exchanging
pub mod Dispatch
pub mod Pressing
pub mod Keys
pub mod Rules
pub mod Ruling
pub mod Nearest
pub mod Mapping
pub mod Entering
pub mod Entered
pub mod Unmapping
pub mod Leaving
pub mod Parting
pub mod Unmapped
pub mod Cases

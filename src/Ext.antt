-- ===== src/Ext.antt =====
-- The ext-workspace protocol of src/workspace.c: handles, their resources and queued requests.
pub mod State
pub mod Groups
pub mod Workspaces
pub mod Clients
pub mod Live
pub mod Adding
pub mod Changing
pub mod Binding
pub mod Removing
pub mod Steps
pub mod Asking
pub mod Delivery
pub mod Examples
pub mod Teardown

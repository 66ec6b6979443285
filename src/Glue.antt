-- ===== src/Glue.antt =====
-- What joins the outputs of src/main.c with the two protocols that show their tags: include/mono/ext.h
-- and the bound outputs of include/mono/ipc.h.
pub mod Desk
pub mod Commit
pub mod Asked
pub mod Told
pub mod Sound
pub mod Names
pub mod Coming
pub mod Examples

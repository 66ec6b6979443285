-- ===== src/Status.antt =====
-- What src/main.c and include/mono/ipc.h tell of an output: to their clients, and as lines of text.
pub mod Collect
pub mod Send
pub mod Small

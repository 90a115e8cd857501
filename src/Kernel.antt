-- ===== src/Kernel.antt =====
-- The kernel module simple_proc_ktimer/simple_proc.c.
pub mod Util
pub mod Sample
pub mod Single
pub mod Walk
pub mod App
pub mod Sockets
pub mod Proc
pub mod Mode
pub mod Timer

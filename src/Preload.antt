-- ===== src/Preload.antt =====
-- ld_preload.c and ipc.c: system calls on intercepted descriptors are handed to a thread of the
-- descriptor's own, through a message buffer guarded by semaphores.
pub mod Request
pub mod Thread
pub mod Channel
pub mod Wrapper
pub mod Register
pub mod Schedule
pub mod Accept
pub mod Epoll
pub mod Fork
pub mod Start
pub mod Load
pub mod Select
pub mod Program
pub mod Place

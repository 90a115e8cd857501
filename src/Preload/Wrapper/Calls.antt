-- ===== src/Preload/Wrapper/Calls.antt =====
-- The wrappers of ld_preload.c that look at the thread's `errno` or ignore it, on a descriptor of the
-- table whose channel is idle.
use core_partitioning.Base.{ℕ, ◌+◌, ◌-◌, ◌^◌, ℤ, Returns}
use core_partitioning.Table.{Ptr, get_by_fd, u32}
use core_partitioning.Preload.Request.{
  type_read, type_write, type_poll, type_epoll_ctl, type_recvfrom, type_getpeername, type_lseek,
  Originals, narrow,
}
use core_partitioning.Preload.Thread.{execute, round}
use core_partitioning.Preload.Wrapper.{
  Process, set_if_changed, keep, value, size, lseek, read, write, epoll_ctl, poll, recvfrom,
  getpeername,
}
use core_partitioning.Preload.Wrapper.Forward.{
  Idle, Forwarded, call_value-Carries, call_size-Carries, forward-Forwarded,
}

module _ {W : Type 0} (o : Originals W) (fuel : ℕ) (s : Process W) (p : Ptr) where
  pub lseek-Forwarded :
      (fd offset whence : ℤ)
      → Idle s (get_by_fd fuel fd 1 s.table) p
      → Returns
          (Forwarded (narrow (o.lseek fd offset whence)) set_if_changed s p)
          (lseek o fuel fd offset whence s)
  unfolding lseek round execute
  lseek-Forwarded fd offset whence idle =
      forward-Forwarded o (get_by_fd fuel fd 1) (type_lseek fd offset whence)
        (narrow (o.lseek fd offset whence)) s (o.lseek fd offset whence) value set_if_changed
        s.errno p (call_value-Carries (narrow (o.lseek fd offset whence)) (s.threads p) s.world)
        idle

  pub read-Forwarded :
      (fildes : ℤ) (buf nbyte : ℕ)
      → Idle s (get_by_fd fuel fildes 1 s.table) p
      → Returns
          (Forwarded (o.read fildes buf nbyte) set_if_changed s p)
          (read o fuel fildes buf nbyte s)
  unfolding read round execute
  read-Forwarded fildes buf nbyte idle =
      forward-Forwarded o (get_by_fd fuel fildes 1) (type_read fildes buf nbyte)
        (o.read fildes buf nbyte) s (o.read fildes buf nbyte) size set_if_changed s.errno p
        (call_size-Carries (o.read fildes buf nbyte) (s.threads p) s.world) idle

  -- `write` on an idle descriptor of the table returns what the original function does, called once
  -- by the descriptor's thread; but it leaves the caller's `errno` as it was, also when the
  -- original function sets it.
  pub write-Forwarded :
      (fildes : ℤ) (buf nbyte : ℕ)
      → Idle s (get_by_fd fuel fildes 1 s.table) p
      → Returns (Forwarded (o.write fildes buf nbyte) keep s p) (write o fuel fildes buf nbyte s)
  unfolding write round execute
  write-Forwarded fildes buf nbyte idle =
      forward-Forwarded o (get_by_fd fuel fildes 1) (type_write fildes buf nbyte)
        (o.write fildes buf nbyte) s (o.write fildes buf nbyte) size keep s.errno p
        (call_size-Carries (o.write fildes buf nbyte) (s.threads p) s.world) idle

  pub epoll_ctl-Forwarded :
      (socket op fd : ℤ) (events : ℕ)
      → Idle s (get_by_fd fuel socket 0 s.table) p
      → Returns
          (Forwarded (o.epoll_ctl socket op fd events) set_if_changed s p)
          (epoll_ctl o fuel socket op fd events s)
  unfolding epoll_ctl round execute
  epoll_ctl-Forwarded socket op fd events idle =
      forward-Forwarded o (get_by_fd fuel socket 0) (type_epoll_ctl socket op fd events)
        (o.epoll_ctl socket op fd events) s (o.epoll_ctl socket op fd events) value set_if_changed
        s.errno p (call_value-Carries (o.epoll_ctl socket op fd events) (s.threads p) s.world) idle

  pub recvfrom-Forwarded :
      (socket : ℤ) (buf n : ℕ) (flags : ℤ) (addr addrlen : ℕ)
      → Idle s (get_by_fd fuel socket 0 s.table) p
      → Returns
          (Forwarded (o.recvfrom socket buf n flags addr addrlen) set_if_changed s p)
          (recvfrom o fuel socket buf n flags addr addrlen s)
  unfolding recvfrom round execute
  recvfrom-Forwarded socket buf n flags addr addrlen idle =
      forward-Forwarded o (get_by_fd fuel socket 0) (type_recvfrom socket buf n flags addr addrlen)
        (o.recvfrom socket buf n flags addr addrlen) s (o.recvfrom socket buf n flags addr addrlen)
        size set_if_changed s.errno p
        (call_size-Carries (o.recvfrom socket buf n flags addr addrlen) (s.threads p) s.world) idle

  pub getpeername-Forwarded :
      (socket : ℤ) (addr addrlen : ℕ)
      → Idle s (get_by_fd fuel socket 0 s.table) p
      → Returns
          (Forwarded (o.getpeername socket addr addrlen) set_if_changed s p)
          (getpeername o fuel socket addr addrlen s)
  unfolding getpeername round execute
  getpeername-Forwarded socket addr addrlen idle =
      forward-Forwarded o (get_by_fd fuel socket 0) (type_getpeername socket addr addrlen)
        (o.getpeername socket addr addrlen) s (o.getpeername socket addr addrlen) value
        set_if_changed s.errno p
        (call_value-Carries (o.getpeername socket addr addrlen) (s.threads p) s.world) idle

  pub poll-Forwarded :
      (fd_at : ℕ → ℕ → ℤ) (ufds nfds : ℕ) (timeout : ℤ)
      → Idle s (get_by_fd fuel (fd_at ufds (u32 (nfds + 2 ^ 32 - 1))) 0 s.table) p
      → Returns
          (Forwarded (o.poll ufds nfds timeout) set_if_changed s p)
          (poll o fuel fd_at ufds nfds timeout s)
  unfolding poll round execute
  poll-Forwarded fd_at ufds nfds timeout idle =
      forward-Forwarded o (get_by_fd fuel (fd_at ufds (u32 (nfds + 2 ^ 32 - 1))) 0)
        (type_poll ufds nfds timeout) (o.poll ufds nfds timeout) s (o.poll ufds nfds timeout) value
        set_if_changed s.errno p
        (call_value-Carries (o.poll ufds nfds timeout) (s.threads p) s.world) idle

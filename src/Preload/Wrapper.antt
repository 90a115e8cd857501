-- ===== src/Preload/Wrapper.antt =====
-- The functions of ld_preload.c that replace the C library's, with `__FILEIO__`: a call on a
-- descriptor in the table goes to the descriptor's thread, any other to the original function. The
-- calls that make or close descriptors are not among these. One caller at a time is modelled: the
-- table's lock is held throughout and never contended.
mod Exchange
unfoldable pub use Exchange.*
pub mod Forward
pub mod Calls
pub mod Settled
pub mod Same
pub mod Outside
use core_partitioning.Base.{
  ℕ, ◌+◌, ◌-◌, ◌^◌, ℤ, Option, none, some, ◌>>=◌, ◌==◌, ◌!=◌, if◌then◌else◌,
}
use core_partitioning.Table.{
  Ptr, null, Table, ThreadInfo, Semaphores, Run, ok, exit, fault, out_of_fuel, update, get_by_fd,
  u32,
}
use core_partitioning.Preload.Request.{
  Request, Retval, Outcome, Call, Originals, type_bind, type_listen, type_connect, type_send,
  type_recv, type_setsockopt, type_getsockopt, type_read, type_write, type_poll, type_epoll_ctl,
  type_sendto, type_recvfrom, type_sendmsg, type_recvmsg, type_getsockname, type_getpeername,
  type_lseek,
}
use core_partitioning.Preload.Thread.{Thread, round}
use core_partitioning.Preload.Channel.{
  Message, unset, args, retval, Channel, send_to_thread, recv_from_app, send_to_app,
  recv_from_thread,
}

module _ {W : Type 0} (o : Originals W) (fuel : ℕ) where
  unfoldable pub lseek : (fd offset whence : ℤ) → Process W → Option (ℤ × Process W)
  lseek fd offset whence s =
      forward o (get_by_fd fuel fd 1) (type_lseek fd offset whence) value set_if_changed
        (o.lseek fd offset whence) s.errno s

  unfoldable pub read : (fildes : ℤ) → (buf nbyte : ℕ) → Process W → Option (ℤ × Process W)
  read fildes buf nbyte s =
      forward o (get_by_fd fuel fildes 1) (type_read fildes buf nbyte) size set_if_changed
        (o.read fildes buf nbyte) s.errno s

  unfoldable pub write : (fildes : ℤ) → (buf nbyte : ℕ) → Process W → Option (ℤ × Process W)
  write fildes buf nbyte s =
      forward o (get_by_fd fuel fildes 1) (type_write fildes buf nbyte) size keep
        (o.write fildes buf nbyte) s.errno s

  unfoldable pub bind : (socket : ℤ) → (address len : ℕ) → Process W → Option (ℤ × Process W)
  bind socket address len s =
      forward o (get_by_fd fuel socket 0) (type_bind socket address len) value set_always
        (o.bind socket address len) s.errno s

  unfoldable pub listen : (sockfd backlog : ℤ) → Process W → Option (ℤ × Process W)
  listen sockfd backlog s =
      forward o (get_by_fd fuel sockfd 0) (type_listen sockfd backlog) value set_always
        (o.listen sockfd backlog) s.errno s

  unfoldable pub connect : (socket : ℤ) → (address len : ℕ) → Process W → Option (ℤ × Process W)
  connect socket address len s =
      forward o (get_by_fd fuel socket 0) (type_connect socket address len) value set_always
        (o.connect socket address len) s.errno s

  unfoldable pub send :
      (socket : ℤ) → (buffer length : ℕ) → (flags : ℤ) → Process W → Option (ℤ × Process W)
  send socket buffer length flags s =
      forward o (get_by_fd fuel socket 0) (type_send socket buffer length flags) size set_always
        (o.send socket buffer length flags) s.errno s

  unfoldable pub recv :
      (socket : ℤ) → (buf length : ℕ) → (flags : ℤ) → Process W → Option (ℤ × Process W)
  recv socket buf length flags s =
      forward o (get_by_fd fuel socket 0) (type_recv socket buf length flags) size set_always
        (o.recv socket buf length flags) s.errno s

  unfoldable pub setsockopt :
      (socket level option_name : ℤ) → (option_value len : ℕ) → Process W → Option (ℤ × Process W)
  setsockopt socket level option_name option_value len s =
      forward o (get_by_fd fuel socket 0)
        (type_setsockopt socket level option_name option_value len) value set_always
        (o.setsockopt socket level option_name option_value len) s.errno s

  unfoldable pub getsockopt :
      (socket level option_name : ℤ) → (buf addrlen : ℕ) → Process W → Option (ℤ × Process W)
  getsockopt socket level option_name buf addrlen s =
      forward o (get_by_fd fuel socket 0) (type_getsockopt socket level option_name buf addrlen)
        value set_always (o.getsockopt socket level option_name buf addrlen) s.errno s

  unfoldable pub epoll_ctl : (epfd op fd : ℤ) → (events : ℕ) → Process W → Option (ℤ × Process W)
  epoll_ctl epfd op fd events s =
      forward o (get_by_fd fuel epfd 0) (type_epoll_ctl epfd op fd events) value set_if_changed
        (o.epoll_ctl epfd op fd events) s.errno s

  -- `fd_at` reads the descriptor of an element of the caller's array; the entry of its last element
  -- is looked for, at the index `nfds - 1` of an `unsigned int`.
  unfoldable pub poll :
      (fd_at : (ufds index : ℕ) → ℤ)
      → (ufds nfds : ℕ) → (timeout : ℤ) → Process W
      → Option (ℤ × Process W)
  poll fd_at ufds nfds timeout s =
      forward o (get_by_fd fuel (fd_at ufds (u32 (nfds + 2 ^ 32 - 1))) 0)
        (type_poll ufds nfds timeout) value set_if_changed (o.poll ufds nfds timeout) s.errno s

  unfoldable pub sendto :
      (socket : ℤ)
      → (buffer length : ℕ) → (flags : ℤ) → (address len : ℕ) → Process W
      → Option (ℤ × Process W)
  sendto socket buffer length flags address len s =
      forward o (get_by_fd fuel socket 0) (type_sendto socket buffer length flags address len) size
        set_always (o.sendto socket buffer length flags address len) s.errno s

  -- `errno = 0` before the call on an unknown descriptor.
  unfoldable pub sendmsg :
      (socket : ℤ) → (msg : ℕ) → (flags : ℤ) → Process W → Option (ℤ × Process W)
  sendmsg socket msg flags s =
      forward o (get_by_fd fuel socket 0) (type_sendmsg socket msg flags) size set_always
        (o.sendmsg socket msg flags) 0 s

  unfoldable pub recvfrom :
      (socket : ℤ)
      → (buf length : ℕ) → (flags : ℤ) → (addr addrlen : ℕ) → Process W
      → Option (ℤ × Process W)
  recvfrom socket buf length flags addr addrlen s =
      forward o (get_by_fd fuel socket 0) (type_recvfrom socket buf length flags addr addrlen) size
        set_if_changed (o.recvfrom socket buf length flags addr addrlen) s.errno s

  unfoldable pub recvmsg :
      (socket : ℤ) → (msg : ℕ) → (flags : ℤ) → Process W → Option (ℤ × Process W)
  recvmsg socket msg flags s =
      forward o (get_by_fd fuel socket 0) (type_recvmsg socket msg flags) size set_always
        (o.recvmsg socket msg flags) s.errno s

  unfoldable pub getsockname :
      (socket : ℤ) → (addr addrlen : ℕ) → Process W → Option (ℤ × Process W)
  getsockname socket addr addrlen s =
      forward o (get_by_fd fuel socket 0) (type_getsockname socket addr addrlen) value set_always
        (o.getsockname socket addr addrlen) s.errno s

  unfoldable pub getpeername :
      (socket : ℤ) → (addr addrlen : ℕ) → Process W → Option (ℤ × Process W)
  getpeername socket addr addrlen s =
      forward o (get_by_fd fuel socket 0) (type_getpeername socket addr addrlen) value
        set_if_changed (o.getpeername socket addr addrlen) s.errno s

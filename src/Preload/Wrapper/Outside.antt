-- ===== src/Preload/Wrapper/Outside.antt =====
-- The wrappers of ld_preload.c on a descriptor that the table does not hold.
use core_partitioning.Base.{ℕ, ◌≡◌, ℤ, some}
use core_partitioning.Table.{null, ok, get_by_fd}
use core_partitioning.Preload.Request.{
  type_bind, type_listen, type_connect, type_send, type_recv, type_setsockopt, type_getsockopt,
  type_read, type_write, type_epoll_ctl, type_sendto, type_recvfrom, type_recvmsg, type_getsockname,
  type_getpeername, type_lseek, Originals,
}
use core_partitioning.Preload.Wrapper.{
  Process, set_if_changed, set_always, keep, directly, value, size, lseek, read, write, bind,
  listen, connect, send, recv, setsockopt, getsockopt, epoll_ctl, sendto, recvfrom, recvmsg,
  getsockname, getpeername,
}
use core_partitioning.Preload.Wrapper.Forward.{forward-directly}

-- On a socket that is not in the table thirteen wrappers are the original functions, called by the
-- caller itself.
pub socket_calls-directly :
    {W : Type 0} (o : Originals W) (fuel : ℕ) (s : Process W) (socket : ℤ)
    → get_by_fd fuel socket 0 s.table ≡ ok null s.table
    → (backlog level name op fd flags : ℤ) (buf n address addrlen : ℕ)
    → (bind o fuel socket address n s ≡ some (directly (o.bind socket address n) s.errno s))
      × (listen o fuel socket backlog s ≡ some (directly (o.listen socket backlog) s.errno s))
      × (connect o fuel socket address n s ≡ some (directly (o.connect socket address n) s.errno s))
      × (send o fuel socket buf n flags s ≡ some (directly (o.send socket buf n flags) s.errno s))
      × (recv o fuel socket buf n flags s ≡ some (directly (o.recv socket buf n flags) s.errno s))
      × (setsockopt o fuel socket level name buf n s
          ≡ some (directly (o.setsockopt socket level name buf n) s.errno s))
      × (getsockopt o fuel socket level name buf n s
          ≡ some (directly (o.getsockopt socket level name buf n) s.errno s))
      × (epoll_ctl o fuel socket op fd buf s
          ≡ some (directly (o.epoll_ctl socket op fd buf) s.errno s))
      × (sendto o fuel socket buf n flags address addrlen s
          ≡ some (directly (o.sendto socket buf n flags address addrlen) s.errno s))
      × (recvfrom o fuel socket buf n flags address addrlen s
          ≡ some (directly (o.recvfrom socket buf n flags address addrlen) s.errno s))
      × (recvmsg o fuel socket buf flags s ≡ some (directly (o.recvmsg socket buf flags) s.errno s))
      × (getsockname o fuel socket address addrlen s
          ≡ some (directly (o.getsockname socket address addrlen) s.errno s))
      × (getpeername o fuel socket address addrlen s
          ≡ some (directly (o.getpeername socket address addrlen) s.errno s))
unfolding bind listen connect send recv setsockopt getsockopt epoll_ctl sendto recvfrom recvmsg
    getsockname getpeername
socket_calls-directly o fuel s socket h backlog level name op fd flags buf n address addrlen = (
  forward-directly o (get_by_fd fuel socket 0) (type_bind socket address n)
      (o.bind socket address n) s value set_always s.errno h,
  forward-directly o (get_by_fd fuel socket 0) (type_listen socket backlog)
      (o.listen socket backlog) s value set_always s.errno h,
  forward-directly o (get_by_fd fuel socket 0) (type_connect socket address n)
      (o.connect socket address n) s value set_always s.errno h,
  forward-directly o (get_by_fd fuel socket 0) (type_send socket buf n flags)
      (o.send socket buf n flags) s size set_always s.errno h,
  forward-directly o (get_by_fd fuel socket 0) (type_recv socket buf n flags)
      (o.recv socket buf n flags) s size set_always s.errno h,
  forward-directly o (get_by_fd fuel socket 0) (type_setsockopt socket level name buf n)
      (o.setsockopt socket level name buf n) s value set_always s.errno h,
  forward-directly o (get_by_fd fuel socket 0) (type_getsockopt socket level name buf n)
      (o.getsockopt socket level name buf n) s value set_always s.errno h,
  forward-directly o (get_by_fd fuel socket 0) (type_epoll_ctl socket op fd buf)
      (o.epoll_ctl socket op fd buf) s value set_if_changed s.errno h,
  forward-directly o (get_by_fd fuel socket 0) (type_sendto socket buf n flags address addrlen)
      (o.sendto socket buf n flags address addrlen) s size set_always s.errno h,
  forward-directly o (get_by_fd fuel socket 0) (type_recvfrom socket buf n flags address addrlen)
      (o.recvfrom socket buf n flags address addrlen) s size set_if_changed s.errno h,
  forward-directly o (get_by_fd fuel socket 0) (type_recvmsg socket buf flags)
      (o.recvmsg socket buf flags) s size set_always s.errno h,
  forward-directly o (get_by_fd fuel socket 0) (type_getsockname socket address addrlen)
      (o.getsockname socket address addrlen) s value set_always s.errno h,
  forward-directly o (get_by_fd fuel socket 0) (type_getpeername socket address addrlen)
      (o.getpeername socket address addrlen) s value set_if_changed s.errno h,
)

-- On a file that is not in the table `read`, `write` and `lseek` are the original functions, called by
-- the caller itself.
pub file_calls-directly :
    {W : Type 0} (o : Originals W) (fuel : ℕ) (s : Process W) (fd : ℤ)
    → get_by_fd fuel fd 1 s.table ≡ ok null s.table
    → (offset whence : ℤ) (buf n : ℕ)
    → (read o fuel fd buf n s ≡ some (directly (o.read fd buf n) s.errno s))
      × (write o fuel fd buf n s ≡ some (directly (o.write fd buf n) s.errno s))
      × (lseek o fuel fd offset whence s ≡ some (directly (o.lseek fd offset whence) s.errno s))
unfolding read write lseek
file_calls-directly o fuel s fd h offset whence buf n = (
  forward-directly o (get_by_fd fuel fd 1) (type_read fd buf n) (o.read fd buf n) s size
      set_if_changed s.errno h,
  forward-directly o (get_by_fd fuel fd 1) (type_write fd buf n) (o.write fd buf n) s size keep
      s.errno h,
  forward-directly o (get_by_fd fuel fd 1) (type_lseek fd offset whence) (o.lseek fd offset whence)
      s value set_if_changed s.errno h,
)

-- ===== src/Preload/Wrapper/Settled.antt =====
-- The wrappers of ld_preload.c that always take over the thread's `errno`, on a descriptor of the table
-- whose channel is idle.
use core_partitioning.Base.{ℕ, ℤ, Returns}
use core_partitioning.Table.{Ptr, get_by_fd}
use core_partitioning.Preload.Request.{
  type_bind, type_listen, type_connect, type_send, type_recv, type_setsockopt, type_getsockopt,
  type_sendto, type_sendmsg, type_recvmsg, type_getsockname, Originals,
}
use core_partitioning.Preload.Thread.{execute, round}
use core_partitioning.Preload.Wrapper.{
  Process, set_always, value, size, bind, listen, connect, send, recv, setsockopt, getsockopt,
  sendto, sendmsg, recvmsg, getsockname,
}
use core_partitioning.Preload.Wrapper.Forward.{
  Idle, Forwarded, call_value-Carries, call_size-Carries, forward-Forwarded,
}

module _ {W : Type 0} (o : Originals W) (fuel : ℕ) (s : Process W) (p : Ptr) where
  pub bind-Forwarded :
      (socket : ℤ) (address n : ℕ)
      → Idle s (get_by_fd fuel socket 0 s.table) p
      → Returns
          (Forwarded (o.bind socket address n) set_always s p)
          (bind o fuel socket address n s)
  unfolding bind round execute
  bind-Forwarded socket address n idle =
      forward-Forwarded o (get_by_fd fuel socket 0) (type_bind socket address n)
        (o.bind socket address n) s (o.bind socket address n) value set_always s.errno p
        (call_value-Carries (o.bind socket address n) (s.threads p) s.world) idle

  pub listen-Forwarded :
      (socket backlog : ℤ)
      → Idle s (get_by_fd fuel socket 0 s.table) p
      → Returns
          (Forwarded (o.listen socket backlog) set_always s p)
          (listen o fuel socket backlog s)
  unfolding listen round execute
  listen-Forwarded socket backlog idle =
      forward-Forwarded o (get_by_fd fuel socket 0) (type_listen socket backlog)
        (o.listen socket backlog) s (o.listen socket backlog) value set_always s.errno p
        (call_value-Carries (o.listen socket backlog) (s.threads p) s.world) idle

  pub connect-Forwarded :
      (socket : ℤ) (address n : ℕ)
      → Idle s (get_by_fd fuel socket 0 s.table) p
      → Returns
          (Forwarded (o.connect socket address n) set_always s p)
          (connect o fuel socket address n s)
  unfolding connect round execute
  connect-Forwarded socket address n idle =
      forward-Forwarded o (get_by_fd fuel socket 0) (type_connect socket address n)
        (o.connect socket address n) s (o.connect socket address n) value set_always s.errno p
        (call_value-Carries (o.connect socket address n) (s.threads p) s.world) idle

  pub send-Forwarded :
      (socket : ℤ) (buf n : ℕ) (flags : ℤ)
      → Idle s (get_by_fd fuel socket 0 s.table) p
      → Returns
          (Forwarded (o.send socket buf n flags) set_always s p)
          (send o fuel socket buf n flags s)
  unfolding send round execute
  send-Forwarded socket buf n flags idle =
      forward-Forwarded o (get_by_fd fuel socket 0) (type_send socket buf n flags)
        (o.send socket buf n flags) s (o.send socket buf n flags) size set_always s.errno p
        (call_size-Carries (o.send socket buf n flags) (s.threads p) s.world) idle

  pub recv-Forwarded :
      (socket : ℤ) (buf n : ℕ) (flags : ℤ)
      → Idle s (get_by_fd fuel socket 0 s.table) p
      → Returns
          (Forwarded (o.recv socket buf n flags) set_always s p)
          (recv o fuel socket buf n flags s)
  unfolding recv round execute
  recv-Forwarded socket buf n flags idle =
      forward-Forwarded o (get_by_fd fuel socket 0) (type_recv socket buf n flags)
        (o.recv socket buf n flags) s (o.recv socket buf n flags) size set_always s.errno p
        (call_size-Carries (o.recv socket buf n flags) (s.threads p) s.world) idle

  pub setsockopt-Forwarded :
      (socket level name : ℤ) (buf n : ℕ)
      → Idle s (get_by_fd fuel socket 0 s.table) p
      → Returns
          (Forwarded (o.setsockopt socket level name buf n) set_always s p)
          (setsockopt o fuel socket level name buf n s)
  unfolding setsockopt round execute
  setsockopt-Forwarded socket level name buf n idle =
      forward-Forwarded o (get_by_fd fuel socket 0) (type_setsockopt socket level name buf n)
        (o.setsockopt socket level name buf n) s (o.setsockopt socket level name buf n) value
        set_always s.errno p
        (call_value-Carries (o.setsockopt socket level name buf n) (s.threads p) s.world) idle

  pub getsockopt-Forwarded :
      (socket level name : ℤ) (buf n : ℕ)
      → Idle s (get_by_fd fuel socket 0 s.table) p
      → Returns
          (Forwarded (o.getsockopt socket level name buf n) set_always s p)
          (getsockopt o fuel socket level name buf n s)
  unfolding getsockopt round execute
  getsockopt-Forwarded socket level name buf n idle =
      forward-Forwarded o (get_by_fd fuel socket 0) (type_getsockopt socket level name buf n)
        (o.getsockopt socket level name buf n) s (o.getsockopt socket level name buf n) value
        set_always s.errno p
        (call_value-Carries (o.getsockopt socket level name buf n) (s.threads p) s.world) idle

  pub sendto-Forwarded :
      (socket : ℤ) (buf n : ℕ) (flags : ℤ) (addr addrlen : ℕ)
      → Idle s (get_by_fd fuel socket 0 s.table) p
      → Returns
          (Forwarded (o.sendto socket buf n flags addr addrlen) set_always s p)
          (sendto o fuel socket buf n flags addr addrlen s)
  unfolding sendto round execute
  sendto-Forwarded socket buf n flags addr addrlen idle =
      forward-Forwarded o (get_by_fd fuel socket 0) (type_sendto socket buf n flags addr addrlen)
        (o.sendto socket buf n flags addr addrlen) s (o.sendto socket buf n flags addr addrlen) size
        set_always s.errno p
        (call_size-Carries (o.sendto socket buf n flags addr addrlen) (s.threads p) s.world) idle

  pub sendmsg-Forwarded :
      (socket : ℤ) (msg : ℕ) (flags : ℤ)
      → Idle s (get_by_fd fuel socket 0 s.table) p
      → Returns
          (Forwarded (o.sendmsg socket msg flags) set_always s p)
          (sendmsg o fuel socket msg flags s)
  unfolding sendmsg round execute
  sendmsg-Forwarded socket msg flags idle =
      forward-Forwarded o (get_by_fd fuel socket 0) (type_sendmsg socket msg flags)
        (o.sendmsg socket msg flags) s (o.sendmsg socket msg flags) size set_always 0 p
        (call_size-Carries (o.sendmsg socket msg flags) (s.threads p) s.world) idle

  pub recvmsg-Forwarded :
      (socket : ℤ) (msg : ℕ) (flags : ℤ)
      → Idle s (get_by_fd fuel socket 0 s.table) p
      → Returns
          (Forwarded (o.recvmsg socket msg flags) set_always s p)
          (recvmsg o fuel socket msg flags s)
  unfolding recvmsg round execute
  recvmsg-Forwarded socket msg flags idle =
      forward-Forwarded o (get_by_fd fuel socket 0) (type_recvmsg socket msg flags)
        (o.recvmsg socket msg flags) s (o.recvmsg socket msg flags) size set_always s.errno p
        (call_size-Carries (o.recvmsg socket msg flags) (s.threads p) s.world) idle

  pub getsockname-Forwarded :
      (socket : ℤ) (addr addrlen : ℕ)
      → Idle s (get_by_fd fuel socket 0 s.table) p
      → Returns
          (Forwarded (o.getsockname socket addr addrlen) set_always s p)
          (getsockname o fuel socket addr addrlen s)
  unfolding getsockname round execute
  getsockname-Forwarded socket addr addrlen idle =
      forward-Forwarded o (get_by_fd fuel socket 0) (type_getsockname socket addr addrlen)
        (o.getsockname socket addr addrlen) s (o.getsockname socket addr addrlen) value set_always
        s.errno p (call_value-Carries (o.getsockname socket addr addrlen) (s.threads p) s.world)
        idle

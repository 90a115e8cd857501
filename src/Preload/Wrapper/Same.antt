-- ===== src/Preload/Wrapper/Same.antt =====
-- What the caller of each wrapper of ld_preload.c sees, beside what the original function would do.
use core_partitioning.Base.{
  ℕ, ◌+◌, ◌-◌, ◌^◌, ◌<◌, ◌≡◌, sym, ap, ◌∙◌, ℤ, pos, negsuc, Option, Returns, Returns-mono, arith,
}
use core_partitioning.Table.{Ptr, get_by_fd, u32}
use core_partitioning.Preload.Request.{Call, Originals, as_int, narrow}
use core_partitioning.Preload.Wrapper.{
  Process, set_if_changed, set_always, settle, lseek, read, bind, listen, connect, send, recv,
  setsockopt, getsockopt, epoll_ctl, poll, sendto, sendmsg, recvfrom, recvmsg, getsockname,
  getpeername,
}
use core_partitioning.Preload.Wrapper.Forward.{Idle, Forwarded}
use core_partitioning.Preload.Wrapper.Calls.{
  lseek-Forwarded, read-Forwarded, epoll_ctl-Forwarded, recvfrom-Forwarded, getpeername-Forwarded,
  poll-Forwarded,
}
use core_partitioning.Preload.Wrapper.Settled.{
  bind-Forwarded, listen-Forwarded, connect-Forwarded, send-Forwarded, recv-Forwarded,
  setsockopt-Forwarded, getsockopt-Forwarded, sendto-Forwarded, sendmsg-Forwarded,
  recvmsg-Forwarded, getsockname-Forwarded,
}

-- What the C standard and POSIX say of `errno`: a function never sets it to zero, and nothing that it
-- does depends on the value it had.
pub record Documented {W : Type 0} (f : Call W) : Type 0 where
  pub value : (e : ℕ) (w : W) → (f e w).value ≡ (f 0 w).value
  pub errno : (e : ℕ) (w : W) → (f e w).errno ≡ settle set_if_changed e (f 0 w).errno
  pub world : (e : ℕ) (w : W) → (f e w).world ≡ (f 0 w).world

-- The caller cannot tell the outcome from that of calling `f` itself.
pub record Same {W : Type 0} (f : Call W) (s : Process W) (r : ℤ × Process W) : Type 0 where
  pub value : r.0 ≡ (f s.errno s.world).value
  pub errno : r.1.errno ≡ (f s.errno s.world).errno
  pub world : r.1.world ≡ (f s.errno s.world).world

-- The value is one of a C `int`.
abbrev pub Fits : ℤ → Type 0
Fits (pos n) = n < 2 ^ 31
Fits (negsuc n) = n < 2 ^ 31

as_int-Fits : (v : ℤ) → Fits v → as_int v ≡ v
unfolding as_int
as_int-Fits (pos n) h = ground arith
as_int-Fits (negsuc n) h = ground arith

as_int_high : (n : ℕ) → n < 2 ^ 31 → as_int (pos (n + 2 ^ 32)) ≡ pos n
unfolding as_int
as_int_high n h = ground arith

module _ {W : Type 0} (o : Originals W) (fuel : ℕ) (s : Process W) (p : Ptr) where
  pub Documented-Same :
      (f : Call W) (x : Option (ℤ × Process W))
      → Documented f
      → Returns (Forwarded f set_if_changed s p) x
      → Returns (Same f s) x
  Documented-Same f x d h = Returns-mono (Forwarded f set_if_changed s p) (Same f s) x h λ r g.
      record {
        value = g.value ∙ sym (d.value s.errno s.world);
        errno = g.errno ∙ sym (d.errno s.errno s.world);
        world = g.world ∙ sym (d.world s.errno s.world);
      }

module _ {W : Type 0} (o : Originals W) (fuel : ℕ) (s : Process W) (p : Ptr) where
  -- If the original functions treat `errno` as documented, then `recvfrom`, `getpeername` and
  -- `epoll_ctl` on an idle socket of the table do to the caller what the original functions would:
  -- the same result, the same `errno` and the same state of the system.
  pub socket_calls-Same :
      (socket : ℤ)
      → Idle s (get_by_fd fuel socket 0 s.table) p
      → (flags op fd : ℤ) (buf n addr addrlen events : ℕ)
      → Documented (o.recvfrom socket buf n flags addr addrlen)
      → Documented (o.getpeername socket addr addrlen)
      → Documented (o.epoll_ctl socket op fd events)
      → Returns
          (Same (o.recvfrom socket buf n flags addr addrlen) s)
          (recvfrom o fuel socket buf n flags addr addrlen s)
        × Returns
            (Same (o.getpeername socket addr addrlen) s)
            (getpeername o fuel socket addr addrlen s)
        × Returns
            (Same (o.epoll_ctl socket op fd events) s)
            (epoll_ctl o fuel socket op fd events s)
  socket_calls-Same socket idle flags op fd buf n addr addrlen events d d' d'' = (
    Documented-Same o fuel s p _ _ d
        (recvfrom-Forwarded o fuel s p socket buf n flags addr addrlen idle),
    Documented-Same o fuel s p _ _ d' (getpeername-Forwarded o fuel s p socket addr addrlen idle),
    Documented-Same o fuel s p _ _ d'' (epoll_ctl-Forwarded o fuel s p socket op fd events idle),
  )

  -- If the original `poll` treats `errno` as documented and the last descriptor of the array is an
  -- idle socket of the table, then `poll` does to the caller what the original function would: the
  -- same result, the same `errno` and the same state of the system.
  pub poll-Same :
      (fd_at : ℕ → ℕ → ℤ) (ufds nfds : ℕ) (timeout : ℤ)
      → Idle s (get_by_fd fuel (fd_at ufds (u32 (nfds + 2 ^ 32 - 1))) 0 s.table) p
      → Documented (o.poll ufds nfds timeout)
      → Returns (Same (o.poll ufds nfds timeout) s) (poll o fuel fd_at ufds nfds timeout s)
  poll-Same fd_at ufds nfds timeout idle d =
      Documented-Same o fuel s p _ _ d (poll-Forwarded o fuel s p fd_at ufds nfds timeout idle)

  -- If the original functions treat `errno` as documented and `lseek` returns an offset that an `int`
  -- holds, then `read` and `lseek` on an idle file of the table do to the caller what the original
  -- functions would: the same result, the same `errno` and the same state of the system.
  pub file_calls-Same :
      (fd : ℤ)
      → Idle s (get_by_fd fuel fd 1 s.table) p
      → (buf nbyte : ℕ) (offset whence : ℤ) → Documented (o.read fd buf nbyte)
      → Documented (o.lseek fd offset whence)
      → ((e : ℕ) → Fits (o.lseek fd offset whence e s.world).value)
      → Returns (Same (o.read fd buf nbyte) s) (read o fuel fd buf nbyte s)
        × Returns (Same (o.lseek fd offset whence) s) (lseek o fuel fd offset whence s)
  file_calls-Same fd idle buf nbyte offset whence d d' fits = (
    Documented-Same o fuel s p _ _ d (read-Forwarded o fuel s p fd buf nbyte idle),
    Returns-mono (Forwarded (narrow (o.lseek fd offset whence)) set_if_changed s p) (Same _ s) _
        (lseek-Forwarded o fuel s p fd offset whence idle)
        λ r g. record {
          value = g.value ∙ as_int-Fits _ (fits 0) ∙ sym (d'.value s.errno s.world);
          errno = g.errno ∙ sym (d'.errno s.errno s.world);
          world = g.world ∙ sym (d'.world s.errno s.world);
        },
  )

  -- `lseek` on an idle file of the table returns the offset kept in an `int`: 2 ^ 32 less than the
  -- original function returned, if that lies less than 2 ^ 31 above 2 ^ 32.
  pub lseek_truncates :
      (fd offset whence : ℤ) (n : ℕ)
      → Idle s (get_by_fd fuel fd 1 s.table) p
      → n < 2 ^ 31
      → (o.lseek fd offset whence 0 s.world).value ≡ pos (n + 2 ^ 32)
      → Returns (λ r. r.0 ≡ pos n) (lseek o fuel fd offset whence s)
  lseek_truncates fd offset whence n idle h e =
      Returns-mono (Forwarded (narrow (o.lseek fd offset whence)) set_if_changed s p)
        (λ r. r.0 ≡ pos n) _ (lseek-Forwarded o fuel s p fd offset whence idle)
        λ r g. g.value ∙ ap as_int e ∙ as_int_high n h

  -- Eleven more calls on an idle socket of the table return what the original function returns when
  -- the socket's thread calls it once with `errno` 0, and leave the caller's `errno` at what that
  -- call leaves: so 0, not its former value, if the call does not set it.
  pub socket_calls-Forwarded :
      (socket : ℤ)
      → Idle s (get_by_fd fuel socket 0 s.table) p
      → (backlog level name flags : ℤ) (buf n addr addrlen : ℕ)
      → Returns (Forwarded (o.bind socket addr n) set_always s p) (bind o fuel socket addr n s)
        × Returns
            (Forwarded (o.listen socket backlog) set_always s p)
            (listen o fuel socket backlog s)
        × Returns
            (Forwarded (o.connect socket addr n) set_always s p)
            (connect o fuel socket addr n s)
        × Returns
            (Forwarded (o.send socket buf n flags) set_always s p)
            (send o fuel socket buf n flags s)
        × Returns
            (Forwarded (o.recv socket buf n flags) set_always s p)
            (recv o fuel socket buf n flags s)
        × Returns
            (Forwarded (o.setsockopt socket level name buf n) set_always s p)
            (setsockopt o fuel socket level name buf n s)
        × Returns
            (Forwarded (o.getsockopt socket level name buf n) set_always s p)
            (getsockopt o fuel socket level name buf n s)
        × Returns
            (Forwarded (o.sendto socket buf n flags addr addrlen) set_always s p)
            (sendto o fuel socket buf n flags addr addrlen s)
        × Returns
            (Forwarded (o.sendmsg socket buf flags) set_always s p)
            (sendmsg o fuel socket buf flags s)
        × Returns
            (Forwarded (o.recvmsg socket buf flags) set_always s p)
            (recvmsg o fuel socket buf flags s)
        × Returns
            (Forwarded (o.getsockname socket addr addrlen) set_always s p)
            (getsockname o fuel socket addr addrlen s)
  socket_calls-Forwarded socket idle backlog level name flags buf n addr addrlen = (
    bind-Forwarded o fuel s p socket addr n idle,
    listen-Forwarded o fuel s p socket backlog idle,
    connect-Forwarded o fuel s p socket addr n idle,
    send-Forwarded o fuel s p socket buf n flags idle,
    recv-Forwarded o fuel s p socket buf n flags idle,
    setsockopt-Forwarded o fuel s p socket level name buf n idle,
    getsockopt-Forwarded o fuel s p socket level name buf n idle,
    sendto-Forwarded o fuel s p socket buf n flags addr addrlen idle,
    sendmsg-Forwarded o fuel s p socket buf flags idle,
    recvmsg-Forwarded o fuel s p socket buf flags idle,
    getsockname-Forwarded o fuel s p socket addr addrlen idle,
  )

-- ===== src/Preload/Thread.antt =====
-- `syscall_thread` of ld_preload.c: the loop that executes the requests for one descriptor.
pub mod Rounds
use core_partitioning.Base.{
  ℕ, zero, suc, ◌+◌, ℤ, pos, negsuc, Bool, true, false, ◌||◌, List, [], ◌∷◌, ◌==◌, ◌==ℤ◌, leb,
  if◌then◌else◌,
}
use core_partitioning.Preload.Request.{
  Request, type_close, type_shutdown, type_socket, type_bind, type_listen, type_accept,
  type_connect, type_send, type_recv, type_setsockopt, type_getsockopt, type_read, type_write,
  type_poll, type_ppoll, type_epoll_wait, type_epoll_create, type_epoll_ctl, type_socketpair,
  type_sendto, type_recvfrom, type_sendmsg, type_recvmsg, type_getsockname, type_getpeername,
  type_open, type_openat, type_lseek, type_lseek64, type_stat, type_stat64, type_other, Retval,
  Outcome, Call, Originals, narrow,
}

abbrev pub dynamic_thread_syscallcount : ℕ
dynamic_thread_syscallcount = 5

-- The variables of the thread. `recv_data` is one variable for all rounds. `placed` counts the
-- calls of `set_cpu` in the loop.
pub record Thread : Type 0 where
  pub recv_data : Retval
  pub errno : ℕ
  pub loop_break : Bool
  pub syscall_counter : ℕ
  pub placed : ℕ

-- `old_errno = errno; errno = 0;`, the call, then
-- `if (errno != 0) recv_data.thr_errno = errno; else errno = old_errno;`.
abbrev pub after_call : Thread → (errno : ℕ) → Thread
after_call t e =
    if e == 0 then t else record t { errno = e; recv_data = record t.recv_data { thr_errno = e } }

unfoldable pub call_value : {W : Type 0} → Call W → Thread → W → Thread × W
call_value f t w =
    let r = f 0 w in
    let t' = after_call t r.errno in
    (record t' { recv_data = record t'.recv_data { return_value = r.value } }, r.world)

unfoldable pub call_size : {W : Type 0} → Call W → Thread → W → Thread × W
call_size f t w =
    let r = f 0 w in
    let t' = after_call t r.errno in
    (record t' { recv_data = record t'.recv_data { return_size = r.value } }, r.world)

-- `if (recv_data.return_value == -1) loop_break = 1;`
abbrev pub break_on_error : {W : Type 0} → Thread × W → Thread × W
break_on_error (t, w) =
    (if t.recv_data.return_value ==ℤ negsuc 0 then record t { loop_break = true } else t, w)

-- The `switch`.
unfoldable pub execute : {W : Type 0} → Originals W → Request → Thread → W → Thread × W
execute o (type_socket d t p) = call_value (o.socket d t p)
execute o (type_bind s a n) = call_value (o.bind s a n)
execute o (type_listen s b) = call_value (o.listen s b)
execute o (type_accept s a n) = call_value (o.accept s a n)
execute o (type_connect s a n) = call_value (o.connect s a n)
execute o (type_send s b n f) = call_size (o.send s b n f)
execute o (type_recv s b n f) = call_size (o.recv s b n f)
execute o (type_setsockopt s l n v k) = call_value (o.setsockopt s l n v k)
execute o (type_getsockopt s l n b a) = call_value (o.getsockopt s l n b a)
execute o (type_read fd b n) = call_size (o.read fd b n)
execute o (type_write fd b n) = call_size (o.write fd b n)
execute o (type_close fd) = λ t w. (t, w)
execute o (type_poll u n t) = call_value (o.poll u n t)
execute o (type_ppoll u n t s) = call_value (o.ppoll u n t s)
execute o (type_epoll_wait fd e m t) = call_value (o.epoll_wait fd e m t)
execute o (type_epoll_create n) = call_value (o.epoll_create n)
execute o (type_epoll_ctl e op fd ev) = call_value (o.epoll_ctl e op fd ev)
execute o (type_socketpair d t p sv) = call_value (o.socketpair d t p sv)
execute o (type_sendto s b n f a k) = call_size (o.sendto s b n f a k)
execute o (type_recvfrom s b n f a k) = call_size (o.recvfrom s b n f a k)
execute o (type_sendmsg s m f) = call_size (o.sendmsg s m f)
execute o (type_recvmsg s m f) = call_size (o.recvmsg s m f)
execute o (type_shutdown s f) = λ t w. (t, w)
execute o (type_getsockname s a n) = call_value (o.getsockname s a n)
execute o (type_getpeername s a n) = call_value (o.getpeername s a n)
execute o (type_open p f m) = call_value (o.open_file p f m)
execute o (type_openat d p f m) = λ t w. break_on_error (call_value (o.openat d p f m) t w)
execute o (type_lseek fd off wh) = call_value (narrow (o.lseek fd off wh))
execute o (type_lseek64 fd off wh) = call_value (narrow (o.lseek64 fd off wh))
execute o (type_stat p b) = call_value (o.stat p b)
execute o (type_stat64 p b) = call_value (o.stat64 p b)
execute o (type_other n) = λ t w. (t, w)

-- What the loop does before the `switch`.
unfoldable pub begin : Thread → Thread
begin t =
    let counter = t.syscall_counter + 1 in
    let full = leb dynamic_thread_syscallcount counter in
    record t {
      recv_data = record t.recv_data { thr_errno = 0 };
      syscall_counter = if full then 0 else counter;
      placed = if full then t.placed + 1 else t.placed;
    }

-- One round; the reply sent is the thread's `recv_data` after it.
unfoldable pub round : {W : Type 0} → Originals W → Request → Thread → W → Thread × W
round o r t w = execute o r (begin t) w

-- The loop's condition: the request was neither of the two.
abbrev pub is_last : Request → Bool
is_last (type_close _) = true
is_last (type_shutdown _ _) = true
is_last _ = false

-- The loop over the requests that come: the replies, and the requests left when it ends.
pub record Served (W : Type 0) : Type 0 where
  pub replies : List Retval
  pub left : List Request
  pub thread : Thread
  pub world : W

unfoldable pub serve : {W : Type 0} → Originals W → List Request → Thread → W → Served W
serve o [] t w = record { replies = []; left = []; thread = t; world = w }
serve o (r ∷ rs) t w =
    let t' = (round o r t w).0 in
    let w' = (round o r t w).1 in
    let rest = serve o rs t' w' in
    if t'.loop_break || is_last r
    then record { replies = t'.recv_data ∷ []; left = rs; thread = t'; world = w' }
    else record rest { replies = t'.recv_data ∷ rest.replies }

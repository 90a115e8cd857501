-- ===== src/Preload/Request.antt =====
-- The messages of data_types.h between an application and a system call thread, and the original
-- functions that ld_preload.c finds with `dlsym`, which are parameters here.
use core_partitioning.Base.{ℕ, ◌-◌, ◌%◌, ◌^◌, ℤ, pos, negsuc, ltb, if◌then◌else◌}

-- `args_data`: `request_type` with the member of the union that belongs to it. Pointers, lengths
-- and unsigned values are naturals.
pub data Request : Type 0 where
  type_close : (fildes : ℤ) → Request
  type_shutdown : (socket flags : ℤ) → Request
  type_socket : (domain type protocol : ℤ) → Request
  type_bind : (socket : ℤ) → (address address_len : ℕ) → Request
  type_listen : (sockfd backlog : ℤ) → Request
  type_accept : (socket : ℤ) → (addr addrlen : ℕ) → Request
  type_connect : (socket : ℤ) → (address address_len : ℕ) → Request
  type_send : (socket : ℤ) → (buffer length : ℕ) → (flags : ℤ) → Request
  type_recv : (socket : ℤ) → (buf length : ℕ) → (flags : ℤ) → Request
  type_setsockopt : (socket level option_name : ℤ) → (option_value option_len : ℕ) → Request
  type_getsockopt : (socket level option_name : ℤ) → (buf addrlen : ℕ) → Request
  type_read : (fildes : ℤ) → (buf nbyte : ℕ) → Request
  type_write : (fildes : ℤ) → (buf nbyte : ℕ) → Request
  type_poll : (ufds nfds : ℕ) → (timeout : ℤ) → Request
  type_ppoll : (ufds nfds timeout_ts sigmask : ℕ) → Request
  type_epoll_wait : (epfd : ℤ) → (events : ℕ) → (maxevents timeout : ℤ) → Request
  type_epoll_create : (size : ℤ) → Request
  type_epoll_ctl : (epfd op fd : ℤ) → (events : ℕ) → Request
  type_socketpair : (domain type protocol : ℤ) → (sv : ℕ) → Request
  type_sendto :
      (socket : ℤ) → (buffer length : ℕ) → (flags : ℤ) → (address address_len : ℕ) → Request
  type_recvfrom : (socket : ℤ) → (buf length : ℕ) → (flags : ℤ) → (addr addrlen : ℕ) → Request
  type_sendmsg : (socket : ℤ) → (msg : ℕ) → (flags : ℤ) → Request
  type_recvmsg : (socket : ℤ) → (msg_rcv : ℕ) → (flags : ℤ) → Request
  type_getsockname : (socket : ℤ) → (addr addrlen : ℕ) → Request
  type_getpeername : (socket : ℤ) → (addr addrlen : ℕ) → Request
  type_open : (pathname : ℕ) → (flags : ℤ) → (mode : ℕ) → Request
  type_openat : (dirfd : ℤ) → (pathname : ℕ) → (flags : ℤ) → (mode : ℕ) → Request
  type_lseek : (fd offset whence : ℤ) → Request
  type_lseek64 : (fd offset whence : ℤ) → Request
  type_stat : (path buf : ℕ) → Request
  type_stat64 : (path buf : ℕ) → Request
  type_other : (request_type : ℕ) → Request

-- `retval_data`, whose request type is that of the request it answers.
pub record Retval : Type 0 where
  pub return_value : ℤ
  pub return_size : ℤ
  pub thr_errno : ℕ

-- What a call leaves: its result, `errno`, and the state `W` of the system.
pub record Outcome (W : Type 0) : Type 0 where
  pub value : ℤ
  pub errno : ℕ
  pub world : W

-- A call, from the `errno` of the thread that makes it.
abbrev pub Call : Type 0 → Type 0
Call W = (errno : ℕ) → W → Outcome W

pub record Originals (W : Type 0) : Type 0 where
  pub socket : (domain type protocol : ℤ) → Call W
  pub bind : (socket : ℤ) → (address address_len : ℕ) → Call W
  pub listen : (sockfd backlog : ℤ) → Call W
  pub accept : (socket : ℤ) → (addr addrlen : ℕ) → Call W
  pub connect : (socket : ℤ) → (address address_len : ℕ) → Call W
  pub send : (socket : ℤ) → (buffer length : ℕ) → (flags : ℤ) → Call W
  pub recv : (socket : ℤ) → (buf length : ℕ) → (flags : ℤ) → Call W
  pub setsockopt : (socket level option_name : ℤ) → (option_value option_len : ℕ) → Call W
  pub getsockopt : (socket level option_name : ℤ) → (buf addrlen : ℕ) → Call W
  pub read : (fildes : ℤ) → (buf nbyte : ℕ) → Call W
  pub write : (fildes : ℤ) → (buf nbyte : ℕ) → Call W
  pub poll : (ufds nfds : ℕ) → (timeout : ℤ) → Call W
  pub ppoll : (ufds nfds timeout_ts sigmask : ℕ) → Call W
  pub epoll_wait : (epfd : ℤ) → (events : ℕ) → (maxevents timeout : ℤ) → Call W
  pub epoll_create : (size : ℤ) → Call W
  pub epoll_ctl : (epfd op fd : ℤ) → (events : ℕ) → Call W
  pub socketpair : (domain type protocol : ℤ) → (sv : ℕ) → Call W
  pub sendto : (socket : ℤ) → (buffer length : ℕ) → (flags : ℤ) → (address address_len : ℕ) → Call W
  pub recvfrom : (socket : ℤ) → (buf length : ℕ) → (flags : ℤ) → (addr addrlen : ℕ) → Call W
  pub sendmsg : (socket : ℤ) → (msg : ℕ) → (flags : ℤ) → Call W
  pub recvmsg : (socket : ℤ) → (msg_rcv : ℕ) → (flags : ℤ) → Call W
  pub getsockname : (socket : ℤ) → (addr addrlen : ℕ) → Call W
  pub getpeername : (socket : ℤ) → (addr addrlen : ℕ) → Call W
  pub open_file : (pathname : ℕ) → (flags : ℤ) → (mode : ℕ) → Call W
  pub openat : (dirfd : ℤ) → (pathname : ℕ) → (flags : ℤ) → (mode : ℕ) → Call W
  pub lseek : (fd offset whence : ℤ) → Call W
  pub lseek64 : (fd offset whence : ℤ) → Call W
  pub stat : (path buf : ℕ) → Call W
  pub stat64 : (path buf : ℕ) → Call W

-- An `off_t` kept in the `int` of `return_value`: the low 32 bits, read with their sign.
abbrev pub signed : ℕ → ℤ
signed m = if ltb m (2 ^ 31) then pos m else negsuc (2 ^ 32 - 1 - m)

unfoldable pub as_int : ℤ → ℤ
as_int (pos n) = signed (n % 2 ^ 32)
as_int (negsuc n) = signed (2 ^ 32 - 1 - n % 2 ^ 32)

abbrev pub narrow : {W : Type 0} → Call W → Call W
narrow f e w = let r = f e w in record r { value = as_int r.value }

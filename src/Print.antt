-- ===== src/Print.antt =====
-- `type_iton` of print.c: the name of a request type, written into a buffer of the caller's. With
-- `__PRINT__` the functions of ipc.c call it with a buffer of ten bytes from `malloc`.
pub mod Names
use Prim.Native.Char.{code}
use Prim.Native.String.{String}
use core_partitioning.Base.{ℕ, Option, none, some, List, [], ◌∷◌, ◌++◌, ◌>>=◌}

-- `enum REQ_MSG` of print.h.
pub data RequestType : Type 0 where
  type_open : RequestType
  type_fopen : RequestType
  type_socket : RequestType
  type_bind : RequestType
  type_listen : RequestType
  type_accept : RequestType
  type_connect : RequestType
  type_send : RequestType
  type_recv : RequestType
  type_setsockopt : RequestType
  type_read : RequestType
  type_write : RequestType
  type_poll : RequestType
  type_ppoll : RequestType
  type_epoll_wait : RequestType
  type_epoll_create : RequestType
  type_epoll_ctl : RequestType
  type_socketpair : RequestType
  type_select : RequestType
  type_sendto : RequestType
  type_recvfrom : RequestType
  type_sendmsg : RequestType
  type_recvmsg : RequestType
  type_shutdown : RequestType
  type_getsockname : RequestType
  type_getpeername : RequestType
  type_getsockopt : RequestType
  type_openat : RequestType
  type_openat64 : RequestType
  type_open64 : RequestType
  type_lseek : RequestType
  type_lseek64 : RequestType
  type_stat : RequestType
  type_stat64 : RequestType
  type_close : RequestType

abbrev pub codes : String → List ℕ
codes String.[] = []
codes (String.◌∷◌ c s) = code c ∷ codes s

-- `memcpy(str, bytes, n)`: `none` is a write past the end of the buffer.
unfoldable pub memcpy : (str bytes : List ℕ) → Option (List ℕ)
memcpy str [] = some str
memcpy [] (b ∷ bs) = none
memcpy (c ∷ cs) (b ∷ bs) = memcpy cs bs >>= λ r. some (b ∷ r)

-- `memcpy(str, "NAME", sizeof("NAME"))`: the name with the zero that ends it.
abbrev pub name_into : String → List ℕ → Option (List ℕ)
name_into name str = memcpy str (codes name ++ 0 ∷ [])

-- The types without a case of their own leave the buffer alone.
unfoldable pub type_iton : RequestType → (str : List ℕ) → Option (List ℕ)
type_iton type_open str = name_into "OPEN" str
type_iton type_socket str = name_into "SOCKET" str
type_iton type_bind str = name_into "BIND" str
type_iton type_listen str = name_into "LISTEN" str
type_iton type_accept str = name_into "ACCEPT" str
type_iton type_connect str = name_into "CONNECT" str
type_iton type_send str = name_into "SEND" str
type_iton type_recv str = name_into "RECV" str
type_iton type_setsockopt str = name_into "SETSOCKOPT" str
type_iton type_getsockopt str = name_into "GETSOCKOPT" str
type_iton type_read str = name_into "READ" str
type_iton type_write str = name_into "WRITE" str
type_iton type_close str = name_into "CLOSE" str
type_iton type_poll str = name_into "POLL" str
type_iton type_ppoll str = name_into "PPOLL" str
type_iton type_select str = name_into "SELECT" str
type_iton type_sendto str = name_into "SENDTO" str
type_iton type_recvfrom str = name_into "RECVFROM" str
type_iton type_sendmsg str = name_into "SENDMSG" str
type_iton type_recvmsg str = name_into "RECVMSG" str
type_iton type_shutdown str = name_into "SHUTDOWN" str
type_iton type_getsockname str = name_into "GETSOCKNAME" str
type_iton type_open64 str = name_into "OPEN64" str
type_iton type_openat str = name_into "OPENAT" str
type_iton type_openat64 str = name_into "OPENAT64" str
type_iton type_stat str = name_into "STAT" str
type_iton type_stat64 str = name_into "STAT64" str
type_iton type_lseek str = name_into "LSEEK" str
type_iton type_lseek64 str = name_into "LSEEK64" str
type_iton type_fopen str = name_into "FOPEN" str
type_iton _ str = some str

-- ===== src/Preload/Load.antt =====
-- `wrap_init` of ld_preload.c, the constructor of the library: the table, the first values of the core
-- numbers, and the original functions by `dlsym`, which is a parameter.
pub mod Found
use Prim.Native.String.{String}
use core_partitioning.Base.{ℕ, Bool, ◌==◌, List, [], ◌∷◌, ℤ, if◌then◌else◌}
use core_partitioning.Print.{codes}
use core_partitioning.Table.{Ptr, Table, Run, ok, exit, fault, out_of_fuel, init, ◌>>=◌, pure}

-- The variables for the original functions.
pub data Original : Type 0 where
  original_select : Original
  original_socket : Original
  original_bind : Original
  original_listen : Original
  original_accept : Original
  original_connect : Original
  original_send : Original
  original_recv : Original
  original_setsockopt : Original
  original_getsockopt : Original
  original_close : Original
  original_read : Original
  original_write : Original
  original_poll : Original
  original_ppoll : Original
  original_sendto : Original
  original_sendmsg : Original
  original_recvfrom : Original
  original_recvmsg : Original
  original_getsockname : Original
  original_getpeername : Original
  original_shutdown : Original
  original_epoll_wait : Original
  original_epoll_ctl : Original
  original_epoll_create : Original
  original_socketpair : Original
  original_open : Original
  original_open64 : Original
  original_openat : Original
  original_lseek : Original
  original_stat : Original
  original_openat64 : Original
  original_lseek64 : Original
  original_stat64 : Original
  original_fopen : Original
  original_fork : Original

-- `original_f = dlsym(RTLD_NEXT, "f");`.
pub record Assign : Type 0 where
  pub variable : Original
  pub symbol : String

abbrev pub assign : Original → String → Assign
assign v s = record { variable = v; symbol = s }

unfoldable pub assignments : List Assign
assignments =
    (assign original_select "select")
    ∷ (assign original_socket "socket")
    ∷ (assign original_bind "bind")
    ∷ (assign original_listen "listen")
    ∷ (assign original_accept "accept")
    ∷ (assign original_connect "connect")
    ∷ (assign original_send "send")
    ∷ (assign original_recv "recv")
    ∷ (assign original_setsockopt "setsockopt")
    ∷ (assign original_getsockopt "getsockopt")
    ∷ (assign original_close "close")
    ∷ (assign original_read "read")
    ∷ (assign original_write "write")
    ∷ (assign original_poll "poll")
    ∷ (assign original_ppoll "ppoll")
    ∷ (assign original_sendto "sendto")
    ∷ (assign original_sendmsg "sendmsg")
    ∷ (assign original_recvfrom "recvfrom")
    ∷ (assign original_recvmsg "recvmsg")
    ∷ (assign original_getsockname "getsockname")
    ∷ (assign original_getpeername "getpeername")
    ∷ (assign original_shutdown "shutdown")
    ∷ (assign original_epoll_wait "epoll_wait")
    ∷ (assign original_epoll_ctl "epoll_ctl")
    ∷ (assign original_epoll_create "epoll_create")
    ∷ (assign original_socketpair "socketpair")
    ∷ (assign original_open "open")
    ∷ (assign original_open64 "open64")
    ∷ (assign original_openat "openat")
    ∷ (assign original_lseek "lseek")
    ∷ (assign original_stat "stat")
    ∷ (assign original_openat64 "openat64")
    ∷ (assign original_lseek64 "lseek64")
    ∷ (assign original_stat64 "stat64")
    ∷ (assign original_fopen "fopen")
    ∷ (assign original_fork "fork")
    ∷ []

-- What tells the variables apart.
abbrev pub number : Original → ℕ
number original_select = 0
number original_socket = 1
number original_bind = 2
number original_listen = 3
number original_accept = 4
number original_connect = 5
number original_send = 6
number original_recv = 7
number original_setsockopt = 8
number original_getsockopt = 9
number original_close = 10
number original_read = 11
number original_write = 12
number original_poll = 13
number original_ppoll = 14
number original_sendto = 15
number original_sendmsg = 16
number original_recvfrom = 17
number original_recvmsg = 18
number original_getsockname = 19
number original_getpeername = 20
number original_shutdown = 21
number original_epoll_wait = 22
number original_epoll_ctl = 23
number original_epoll_create = 24
number original_socketpair = 25
number original_open = 26
number original_open64 = 27
number original_openat = 28
number original_lseek = 29
number original_stat = 30
number original_openat64 = 31
number original_lseek64 = 32
number original_stat64 = 33
number original_fopen = 34
number original_fork = 35

-- The variables, by what `dlsym` returned; 0 is NULL, their value before.
abbrev pub Symbols : Type 0
Symbols = Original → Ptr

abbrev pub store : Original → Ptr → Symbols → Symbols
store v p o w = if number w == number v then p else o w

unfoldable pub run_assignments : (dlsym : String → Ptr) → List Assign → Symbols → Symbols
run_assignments dlsym [] o = o
run_assignments dlsym (a ∷ as') o = run_assignments dlsym as' (store a.variable (dlsym a.symbol) o)

pub record LibraryState : Type 0 where
  pub originals : Symbols
  pub socket0_cpu : ℕ
  pub socket1_cpu : ℕ
  pub file_cpu : ℕ
  pub net_cpu : ℕ

abbrev pub library_state : (dlsym : String → Ptr) → LibraryState
library_state dlsym = record {
  originals = run_assignments dlsym assignments (λ v. 0);
  socket0_cpu = 0;
  socket1_cpu = 0;
  file_cpu = 16;
  net_cpu = 13;
}

-- `fdtable_init() == -1` is never so: it returns 0 or ends the process.
unfoldable pub wrap_init :
    (dlsym : String → Ptr) → (rwlock_ok : Bool) (header tail : Ptr) → Table → Run LibraryState
wrap_init dlsym rwlock_ok header tail = do
  result ← init rwlock_ok header tail
  pure (library_state dlsym)

-- ===== src/Preload/Load/Found.antt =====
-- What `wrap_init` of ld_preload.c leaves.
use Prim.Native.String.{String}
use core_partitioning.Base.{◌≡◌, ◌≢◌, refl, true, false, [], ◌++◌, ℤ, arith}
use core_partitioning.Print.{codes}
use core_partitioning.Table.{Ptr, null, Table, ok, get_by_fd_all, ◌>>=◌}
use core_partitioning.Table.Chain.{IsTable}
use core_partitioning.Table.Add.{empty_table, init-IsTable}
use core_partitioning.Table.Lookup.{first, visible, visible_lookups}
use core_partitioning.Preload.Load.{
  Original, original_select, original_socket, original_bind, original_listen, original_accept,
  original_connect, original_send, original_recv, original_setsockopt, original_getsockopt,
  original_close, original_read, original_write, original_poll, original_ppoll, original_sendto,
  original_sendmsg, original_recvfrom, original_recvmsg, original_getsockname, original_getpeername,
  original_shutdown, original_epoll_wait, original_epoll_ctl, original_epoll_create,
  original_socketpair, original_open, original_open64, original_openat, original_lseek,
  original_stat, original_openat64, original_lseek64, original_stat64, original_fopen,
  original_fork, assignments, run_assignments, LibraryState, library_state, wrap_init,
}

-- How the variable is spelled.
abbrev pub variable_name : Original → String
variable_name original_select = "original_select"
variable_name original_socket = "original_socket"
variable_name original_bind = "original_bind"
variable_name original_listen = "original_listen"
variable_name original_accept = "original_accept"
variable_name original_connect = "original_connect"
variable_name original_send = "original_send"
variable_name original_recv = "original_recv"
variable_name original_setsockopt = "original_setsockopt"
variable_name original_getsockopt = "original_getsockopt"
variable_name original_close = "original_close"
variable_name original_read = "original_read"
variable_name original_write = "original_write"
variable_name original_poll = "original_poll"
variable_name original_ppoll = "original_ppoll"
variable_name original_sendto = "original_sendto"
variable_name original_sendmsg = "original_sendmsg"
variable_name original_recvfrom = "original_recvfrom"
variable_name original_recvmsg = "original_recvmsg"
variable_name original_getsockname = "original_getsockname"
variable_name original_getpeername = "original_getpeername"
variable_name original_shutdown = "original_shutdown"
variable_name original_epoll_wait = "original_epoll_wait"
variable_name original_epoll_ctl = "original_epoll_ctl"
variable_name original_epoll_create = "original_epoll_create"
variable_name original_socketpair = "original_socketpair"
variable_name original_open = "original_open"
variable_name original_open64 = "original_open64"
variable_name original_openat = "original_openat"
variable_name original_lseek = "original_lseek"
variable_name original_stat = "original_stat"
variable_name original_openat64 = "original_openat64"
variable_name original_lseek64 = "original_lseek64"
variable_name original_stat64 = "original_stat64"
variable_name original_fopen = "original_fopen"
variable_name original_fork = "original_fork"

-- The variable holds what `dlsym` gives for its own name without "original_".
pub record Looked (dlsym : String → Ptr) (v : Original) (p : Ptr) : Type 0 where
  pub symbol : String
  pub named : codes (variable_name v) ≡ codes "original_" ++ codes symbol
  pub found : p ≡ dlsym symbol

assignments-Looked :
    (dlsym : String → Ptr) (v : Original)
    → Looked dlsym v (run_assignments dlsym assignments (λ w. 0) v)
unfolding run_assignments assignments
assignments-Looked dlsym original_select = record { symbol = "select"; named = refl; found = refl }
assignments-Looked dlsym original_socket = record { symbol = "socket"; named = refl; found = refl }
assignments-Looked dlsym original_bind = record { symbol = "bind"; named = refl; found = refl }
assignments-Looked dlsym original_listen = record { symbol = "listen"; named = refl; found = refl }
assignments-Looked dlsym original_accept = record { symbol = "accept"; named = refl; found = refl }
assignments-Looked dlsym original_connect = record {
  symbol = "connect";
  named = refl;
  found = refl;
}
assignments-Looked dlsym original_send = record { symbol = "send"; named = refl; found = refl }
assignments-Looked dlsym original_recv = record { symbol = "recv"; named = refl; found = refl }
assignments-Looked dlsym original_setsockopt = record {
  symbol = "setsockopt";
  named = refl;
  found = refl;
}
assignments-Looked dlsym original_getsockopt = record {
  symbol = "getsockopt";
  named = refl;
  found = refl;
}
assignments-Looked dlsym original_close = record { symbol = "close"; named = refl; found = refl }
assignments-Looked dlsym original_read = record { symbol = "read"; named = refl; found = refl }
assignments-Looked dlsym original_write = record { symbol = "write"; named = refl; found = refl }
assignments-Looked dlsym original_poll = record { symbol = "poll"; named = refl; found = refl }
assignments-Looked dlsym original_ppoll = record { symbol = "ppoll"; named = refl; found = refl }
assignments-Looked dlsym original_sendto = record { symbol = "sendto"; named = refl; found = refl }
assignments-Looked dlsym original_sendmsg = record {
  symbol = "sendmsg";
  named = refl;
  found = refl;
}
assignments-Looked dlsym original_recvfrom = record {
  symbol = "recvfrom";
  named = refl;
  found = refl;
}
assignments-Looked dlsym original_recvmsg = record {
  symbol = "recvmsg";
  named = refl;
  found = refl;
}
assignments-Looked dlsym original_getsockname = record {
  symbol = "getsockname";
  named = refl;
  found = refl;
}
assignments-Looked dlsym original_getpeername = record {
  symbol = "getpeername";
  named = refl;
  found = refl;
}
assignments-Looked dlsym original_shutdown = record {
  symbol = "shutdown";
  named = refl;
  found = refl;
}
assignments-Looked dlsym original_epoll_wait = record {
  symbol = "epoll_wait";
  named = refl;
  found = refl;
}
assignments-Looked dlsym original_epoll_ctl = record {
  symbol = "epoll_ctl";
  named = refl;
  found = refl;
}
assignments-Looked dlsym original_epoll_create = record {
  symbol = "epoll_create";
  named = refl;
  found = refl;
}
assignments-Looked dlsym original_socketpair = record {
  symbol = "socketpair";
  named = refl;
  found = refl;
}
assignments-Looked dlsym original_open = record { symbol = "open"; named = refl; found = refl }
assignments-Looked dlsym original_open64 = record { symbol = "open64"; named = refl; found = refl }
assignments-Looked dlsym original_openat = record { symbol = "openat"; named = refl; found = refl }
assignments-Looked dlsym original_lseek = record { symbol = "lseek"; named = refl; found = refl }
assignments-Looked dlsym original_stat = record { symbol = "stat"; named = refl; found = refl }
assignments-Looked dlsym original_openat64 = record {
  symbol = "openat64";
  named = refl;
  found = refl;
}
assignments-Looked dlsym original_lseek64 = record {
  symbol = "lseek64";
  named = refl;
  found = refl;
}
assignments-Looked dlsym original_stat64 = record { symbol = "stat64"; named = refl; found = refl }
assignments-Looked dlsym original_fopen = record { symbol = "fopen"; named = refl; found = refl }
assignments-Looked dlsym original_fork = record { symbol = "fork"; named = refl; found = refl }

-- With a working lock, a heap where address 0 is not live, and two different nodes from `calloc`,
-- `wrap_init` ends, each variable for an original function holds what `dlsym` gives for its own name,
-- and the table has no entries, so that no descriptor is found in it.
pub wrap_init_lem :
    (dlsym : String → Ptr) (t : Table) (header tail : Ptr) (v : Original) (fd : ℤ)
    → header ≢ tail
    → t.live null ≡ false
    → header ≢ null
    → tail ≢ null
    → (p : LibraryState) × (t' : Table) × (wrap_init dlsym true header tail t ≡ ok p t')
      × IsTable t' []
      × Looked dlsym v (p.originals v)
      × (get_by_fd_all 1 fd t' ≡ ok null t')
unfolding wrap_init first visible
wrap_init_lem dlsym t header tail v fd ne dead h k =
    let made = init-IsTable t header tail ne dead h k in
    (
      library_state dlsym,
      empty_table t header tail,
      rw (made.0, ◌>>=◌) refl,
      made.1,
      assignments-Looked dlsym v,
      (visible_lookups (empty_table t header tail) [] made.1 1 (omega arith) fd 0 0).0,
    )

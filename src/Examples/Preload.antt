-- ===== src/Examples/Preload.antt =====
-- A process with one entry, for a descriptor 5, at concrete calls.
use core_partitioning.Base.{
  ℕ, ◌+◌, ◌^◌, ◌≡◌, refl, true, false, pos, negsuc, List, [], ◌∷◌, ◌++◌, Returns, arith, length,
}
use core_partitioning.Table.{
  Table, ok, update, new_node, get_by_fd, search_table, search, load, get_next,
}
use core_partitioning.Examples.Table.{one_entry, system}
use core_partitioning.Preload.Request.{
  Request, type_read, type_write, type_close, type_shutdown, Call, Originals,
}
use core_partitioning.Preload.Thread.{Thread, Served, serve}
use core_partitioning.Preload.Thread.Rounds.{serve_ends}
use core_partitioning.Preload.Channel.{unset}
use core_partitioning.Preload.Wrapper.{
  Process, set_always, lseek, read, bind, listen, connect, send, recv, setsockopt, getsockopt,
  epoll_ctl, sendto, sendmsg, recvfrom, recvmsg, getsockname, getpeername,
}
use core_partitioning.Preload.Wrapper.Forward.{Idle, Forwarded}
use core_partitioning.Preload.Wrapper.Same.{
  Documented, Same, socket_calls-Same, file_calls-Same, socket_calls-Forwarded,
}

-- A call that succeeds with 7, and one that fails with `errno` 28; the system counts them.
abbrev pub works : Call ℕ
works e w = record { value = pos 7; errno = e; world = w + 1 }

abbrev fails : Call ℕ
fails e w = record { value = negsuc 0; errno = 28; world = w + 1 }

abbrev far : Call ℕ
far e w = record { value = pos (3 + 2 ^ 32); errno = e; world = w + 1 }

abbrev pub originals : Originals ℕ
originals = record {
  socket = λ _ _ _. works;
  bind = λ _ _ _. works;
  listen = λ _ _. works;
  accept = λ _ _ _. works;
  connect = λ _ _ _. works;
  send = λ _ _ _ _. works;
  recv = λ _ _ _ _. works;
  setsockopt = λ _ _ _ _ _. works;
  getsockopt = λ _ _ _ _ _. works;
  read = λ _ _ _. works;
  write = λ _ _ _. fails;
  poll = λ _ _ _. works;
  ppoll = λ _ _ _ _. works;
  epoll_wait = λ _ _ _ _. works;
  epoll_create = λ _. works;
  epoll_ctl = λ _ _ _ _. works;
  socketpair = λ _ _ _ _. works;
  sendto = λ _ _ _ _ _ _. works;
  recvfrom = λ _ _ _ _ _ _. works;
  sendmsg = λ _ _ _. works;
  recvmsg = λ _ _ _. works;
  getsockname = λ _ _ _. works;
  getpeername = λ _ _ _. works;
  open_file = λ _ _ _. works;
  openat = λ _ _ _ _. works;
  lseek = λ _ _ _. works;
  lseek64 = λ _ _ _. far;
  stat = λ _ _. works;
  stat64 = λ _ _. works;
}

pub works-Documented : Documented works
works-Documented = record { value = λ e w. refl; errno = λ e w. refl; world = λ e w. refl }

-- The entry's descriptor is 5, of kind `kind`.
abbrev pub entry_of : ℕ → Table
entry_of kind = record one_entry {
  cell = update one_entry.cell 3 (record (new_node system) { thr_fd = pos 5; net_or_file = kind });
}

abbrev pub thread : Thread
thread = record {
  recv_data = record { return_value = pos 0; return_size = pos 0; thr_errno = 0 };
  errno = 0;
  loop_break = false;
  syscall_counter = 3;
  placed = 0;
}

abbrev pub process : ℕ → Process ℕ
process kind = record {
  table = entry_of kind;
  buffers = λ p. unset;
  threads = λ p. thread;
  serving = λ p. true;
  errno = 11;
  world = 100;
}

pub found_socket : get_by_fd 5 (pos 5) 0 (entry_of 0) ≡ ok 3 (entry_of 0)
unfolding get_by_fd search_table search load get_next
found_socket = refl

found_file : get_by_fd 5 (pos 5) 1 (entry_of 1) ≡ ok 3 (entry_of 1)
unfolding get_by_fd search_table search load get_next
found_file = refl

quiet_socket : Idle (process 0) (get_by_fd 5 (pos 5) 0 (entry_of 0)) 3
quiet_socket = record { entry = found_socket; node = omega arith; sems = refl; serving = refl }

quiet_file : Idle (process 1) (get_by_fd 5 (pos 5) 1 (entry_of 1)) 3
quiet_file = record { entry = found_file; node = omega arith; sems = refl; serving = refl }

socket_calls-Same_example :
    Returns (Same works (process 0)) (recvfrom originals 5 (pos 5) 40 64 (pos 0) 0 0 (process 0))
    × Returns (Same works (process 0)) (getpeername originals 5 (pos 5) 0 0 (process 0))
    × Returns (Same works (process 0)) (epoll_ctl originals 5 (pos 5) (pos 1) (pos 8) 0 (process 0))
socket_calls-Same_example =
    socket_calls-Same originals 5 (process 0) 3 (pos 5) quiet_socket (pos 0) (pos 1) (pos 8) 40 64 0
      0 0 works-Documented works-Documented works-Documented

file_calls-Same_example :
    Returns (Same works (process 1)) (read originals 5 (pos 5) 40 64 (process 1))
    × Returns (Same works (process 1)) (lseek originals 5 (pos 5) (pos 7) (pos 0) (process 1))
file_calls-Same_example =
    file_calls-Same originals 5 (process 1) 3 (pos 5) quiet_file 40 64 (pos 7) (pos 0)
      works-Documented works-Documented (λ e. omega arith)

socket_calls-Forwarded_example :
    Returns (Forwarded works set_always (process 0) 3) (bind originals 5 (pos 5) 2 1 (process 0))
    × Returns
        (Forwarded works set_always (process 0) 3)
        (listen originals 5 (pos 5) (pos 9) (process 0))
    × Returns
        (Forwarded works set_always (process 0) 3)
        (connect originals 5 (pos 5) 2 1 (process 0))
    × Returns
        (Forwarded works set_always (process 0) 3)
        (send originals 5 (pos 5) 40 1 (pos 0) (process 0))
    × Returns
        (Forwarded works set_always (process 0) 3)
        (recv originals 5 (pos 5) 40 1 (pos 0) (process 0))
    × Returns
        (Forwarded works set_always (process 0) 3)
        (setsockopt originals 5 (pos 5) (pos 6) (pos 7) 40 1 (process 0))
    × Returns
        (Forwarded works set_always (process 0) 3)
        (getsockopt originals 5 (pos 5) (pos 6) (pos 7) 40 1 (process 0))
    × Returns
        (Forwarded works set_always (process 0) 3)
        (sendto originals 5 (pos 5) 40 1 (pos 0) 2 3 (process 0))
    × Returns
        (Forwarded works set_always (process 0) 3)
        (sendmsg originals 5 (pos 5) 40 (pos 0) (process 0))
    × Returns
        (Forwarded works set_always (process 0) 3)
        (recvmsg originals 5 (pos 5) 40 (pos 0) (process 0))
    × Returns
        (Forwarded works set_always (process 0) 3)
        (getsockname originals 5 (pos 5) 2 3 (process 0))
socket_calls-Forwarded_example =
    socket_calls-Forwarded originals 5 (process 0) 3 (pos 5) quiet_socket (pos 9) (pos 6) (pos 7)
      (pos 0) 40 1 2 3

abbrev requests : List Request
requests = type_read (pos 5) 40 64 ∷ type_write (pos 5) 40 64 ∷ []

-- The same requests come again after the last.
abbrev served : Request → Served ℕ
served r = serve originals (requests ++ r ∷ requests) thread 100

serve_ends_example :
    ((length (served (type_close (pos 5))).replies ≡ length requests + 1)
      × ((served (type_close (pos 5))).left ≡ requests))
    × (length (served (type_shutdown (pos 5) (pos 2))).replies ≡ length requests + 1)
    × ((served (type_shutdown (pos 5) (pos 2))).left ≡ requests)
serve_ends_example =
    serve_ends originals requests requests (pos 5) (pos 5) (pos 2) thread 100 (tt, (tt, tt)) refl

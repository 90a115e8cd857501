-- ===== src/Preload/Program.antt =====
-- An application that works on files and sockets: at each point it makes a call and goes on with its
-- result. It is run once with the functions of ld_preload.c and once with the original functions alone.
-- The calls are those whose functions leave `errno` as the original does.
pub mod Quiet
pub mod Kept
pub mod Unseen
use core_partitioning.Base.{ℕ, ℤ, Option, some, ◌>>=◌, List, [], ◌∷◌}
use core_partitioning.Preload.Request.{Outcome, Call, Originals}
use core_partitioning.Preload.Wrapper.{Process, read, recvfrom, getpeername, epoll_ctl}
use core_partitioning.Preload.Register.{EntryEnv, open_path, openat, socket, close, shutdown}

pub data AppCall : Type 0 where
  open_call : (path : ℕ) → (flags : ℤ) → (mode : ℕ) → AppCall
  openat_call : (dirfd : ℤ) → (path : ℕ) → (flags : ℤ) → (mode : ℕ) → AppCall
  socket_call : (domain kind protocol : ℤ) → AppCall
  read_call : (fd : ℤ) → (buf nbyte : ℕ) → AppCall
  recvfrom_call : (fd : ℤ) → (buf n : ℕ) → (flags : ℤ) → (addr addrlen : ℕ) → AppCall
  getpeername_call : (fd : ℤ) → (addr addrlen : ℕ) → AppCall
  epoll_ctl_call : (epfd op fd : ℤ) → (events : ℕ) → AppCall
  close_call : (fd : ℤ) → AppCall
  shutdown_call : (fd flags : ℤ) → AppCall

pub data Program : Type 0 where
  done : Program
  then_do : AppCall → (ℤ → Program) → Program

-- The last two are the original functions, and `env` is what the system gives to a new entry in a state.
module _ {W : Type 0} (o : Originals W) (close_original : ℤ → Call W)
    (shutdown_original : (fd flags : ℤ) → Call W) where
  unfoldable pub step :
      (Process W → EntryEnv) → (fuel : ℕ) → AppCall → Process W → Option (ℤ × Process W)
  step env fuel (open_call path flags mode) s = open_path o (env s) fuel path flags mode s
  step env fuel (openat_call dirfd path flags mode) s =
      openat o (env s) fuel dirfd path flags mode s
  step env fuel (socket_call domain kind protocol) s = socket o (env s) fuel domain kind protocol s
  step env fuel (read_call fd buf nbyte) s = read o fuel fd buf nbyte s
  step env fuel (recvfrom_call fd buf n flags addr addrlen) s =
      recvfrom o fuel fd buf n flags addr addrlen s
  step env fuel (getpeername_call fd addr addrlen) s = getpeername o fuel fd addr addrlen s
  step env fuel (epoll_ctl_call epfd op fd events) s = epoll_ctl o fuel epfd op fd events s
  step env fuel (close_call fd) s = close o close_original fuel fd s
  step env fuel (shutdown_call fd flags) s = shutdown o shutdown_original fuel fd flags s

  abbrev pub original : AppCall → Call W
  original (open_call path flags mode) = o.open_file path flags mode
  original (openat_call dirfd path flags mode) = o.openat dirfd path flags mode
  original (socket_call domain kind protocol) = o.socket domain kind protocol
  original (read_call fd buf nbyte) = o.read fd buf nbyte
  original (recvfrom_call fd buf n flags addr addrlen) = o.recvfrom fd buf n flags addr addrlen
  original (getpeername_call fd addr addrlen) = o.getpeername fd addr addrlen
  original (epoll_ctl_call epfd op fd events) = o.epoll_ctl epfd op fd events
  original (close_call fd) = close_original fd
  original (shutdown_call fd flags) = shutdown_original fd flags

  -- The results of the calls, and what they leave.
  unfoldable pub run_program :
      (Process W → EntryEnv) → (fuel : ℕ) → Program → Process W → Option (List ℤ × Process W)
  run_program env fuel done s = some ([], s)
  run_program env fuel (then_do c k) s = step env fuel c s >>= λ r.
      run_program env fuel (k r.0) r.1 >>= λ rest. some (r.0 ∷ rest.0, rest.1)

  unfoldable pub run_plain : Program → (errno : ℕ) → W → List ℤ × ℕ × W
  run_plain done errno w = ([], errno, w)
  run_plain (then_do c k) errno w =
      let r = original c errno w in
      let rest = run_plain (k r.value) r.errno r.world in (r.value ∷ rest.0, rest.1, rest.2)

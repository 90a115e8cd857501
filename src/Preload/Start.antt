-- ===== src/Preload/Start.antt =====
-- How `syscall_thread` of ld_preload.c begins, with `__FILEIO__`: the thread looks for its own entry in
-- the table before it enters the loop of Preload.Thread.
pub mod Served
use core_partitioning.Base.{ℕ, ◌==◌, if◌then◌else◌}
use core_partitioning.Table.{
  Ptr, null, Table, Run, ok, exit, fault, out_of_fuel, load, get_by_tid, ◌>>=◌, pure,
}

-- `return NULL` without an entry; the end of the function in another process than the entry's; or the
-- loop. In the last two cases `set_cpu(1, kind)` has been called.
pub data Began : Type 0 where
  gone : Began
  refused : (kind : ℕ) → Began
  serving : (entry : Ptr) (kind : ℕ) → Began

-- `self` is `pthread_self()` and `pid` is `getpid()`.
unfoldable pub start : (self pid fuel : ℕ) → Table → Run Began
start self pid fuel = do
  sock ← get_by_tid fuel self
  if sock == null then pure gone else (do
    n ← load sock
    pure (if n.pid == pid then serving sock n.net_or_file else refused n.net_or_file))

-- ===== src/Preload/Accept.antt =====
-- `accept` of ld_preload.c, with `__FILEIO__` and without the pool: a call for the thread that also
-- makes a descriptor. The table's lock is held throughout, here for reading only. The thread of the
-- new entry is made as in `socket`; a failure is not even reported, since the test is for a
-- negative result.
pub mod Accepted
use core_partitioning.Base.{ℕ, ◌+◌, ℤ, Bool, true, false, Option, none, some, ◌==◌, if◌then◌else◌}
use core_partitioning.Table.{
  Ptr, null, Table, Run, ok, exit, fault, out_of_fuel, update, add, get_by_fd, get_by_fd_all, ◌>>=◌,
  ◌>>◌, pure,
}
use core_partitioning.Preload.Request.{type_accept, Originals}
use core_partitioning.Preload.Wrapper.{Process, ask, directly}
use core_partitioning.Preload.Register.{EntryEnv, fill, with_entry, then_with, positive}

-- `tmp->pid = getpid();`, with the entry of the listening socket.
unfoldable pub set_pid : Ptr → (pid : ℕ) → Table → Run (Unit {0})
set_pid p pid t =
    if t.live p
    then ok tt (record t { cell = update t.cell p (record (t.cell p) { pid = pid }) })
    else fault

-- The entry for an accepted descriptor, or NULL. The number of threads is not looked at.
unfoldable pub admit : EntryEnv → (fuel : ℕ) → (listener : Ptr) (ret : ℤ) → Table → Run Ptr
admit e fuel listener ret =
    if positive ret
    then (do
      known ← get_by_fd_all fuel ret
      if known == null
          then (do node ← add e.add_env; set_pid listener e.add_env.pid; fill e 0 ret node)
          else pure null)
    else pure null

unfoldable pub accept :
    {W : Type 0}
    → Originals W
    → EntryEnv
    → (fuel : ℕ) → (socket : ℤ) (addr addrlen : ℕ) → Process W
    → Option (ℤ × Process W)
accept o e fuel socket addr addrlen s = then_with (get_by_fd fuel socket 0 s.table) λ tmp _.
    if tmp == null
    then some (directly (o.accept socket addr addrlen) 0 s)
    else elim (ask o tmp (type_accept socket addr addrlen) s) [
      | none ↦ none
      | some x ↦
          then_with (admit e fuel tmp x.0.return_value x.1.table)
            λ p t. some (x.0.return_value, record (with_entry e x.1 p t) { errno = x.0.thr_errno })
    ]

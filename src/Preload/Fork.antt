-- ===== src/Preload/Fork.antt =====
-- `fork` and `clone` of ld_preload.c, as the process that they return in sees them.
pub mod Child
use core_partitioning.Base.{
  ℕ, ℤ, Bool, false, pos, Option, none, some, List, [], ◌∷◌, ◌==ℤ◌, if◌then◌else◌,
}
use core_partitioning.Table.{Ptr, Table, Run, ok, exit, fault, out_of_fuel, update}
use core_partitioning.Table.Fork.{ForkEnv, Started, forked}
use core_partitioning.Preload.Thread.{Thread}
use core_partitioning.Preload.Channel.{Message}
use core_partitioning.Preload.Wrapper.{Process}
use core_partitioning.Preload.Register.{then_with}

-- What the child gets from the system, the bytes of each new buffer, whether the thread of an entry is
-- made, and the variables of a thread before its loop.
pub record ChildEnv : Type 0 where
  pub table : ForkEnv
  pub buffer : Ptr → Message
  pub created : Ptr → Bool
  pub started : Thread

-- The threads and the buffers of the entries, once all are renewed.
abbrev pub start_all : {W : Type 0} → ChildEnv → List Started → Process W → Process W
start_all e [] s = s
start_all e (x ∷ rest) s = start_all e rest (record s {
  threads = update s.threads x.entry e.started;
  serving = update s.serving x.entry (e.created x.entry);
  buffers = update s.buffers (e.table.message x.entry) (e.buffer x.entry);
})

-- No thread of the parent but the caller runs in the child.
abbrev pub alone : {W : Type 0} → Process W → Process W
alone s = record s { serving = λ p. false }

-- `pid` is what the original function returns, 0 in the child.
unfoldable pub fork :
    {W : Type 0} → (pid : ℤ) → ChildEnv → (fuel : ℕ) → Process W → Option (ℤ × Process W)
fork pid e fuel s =
    if pid ==ℤ pos 0
    then then_with (forked e.table fuel s.table)
        (λ xs t. some (pid, start_all e xs (record (alone s) { table = t })))
    else some (pid, s)

-- `clone` leaves the table as it is, in the child too.
unfoldable pub clone : {W : Type 0} → (pid : ℤ) → Process W → Option (ℤ × Process W)
clone pid s = some (pid, if pid ==ℤ pos 0 then alone s else s)

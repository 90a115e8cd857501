-- ===== src/Table/Fields.antt =====
-- Assignments to the fields of a node of fdtable.c.
use core_partitioning.Base.{◌≡◌, true, if◌then◌else◌}
use core_partitioning.Table.{Ptr, ThreadInfo, Table, Run, ok, fault, update}

-- Several fields of `*p`, but not its links.
unfoldable pub set_fields : Ptr → (ThreadInfo → ThreadInfo) → Table → Run (Unit {0})
set_fields p f t =
    if t.live p then ok tt (record t { cell = update t.cell p (f (t.cell p)) }) else fault

pub set_fields-live :
    (t : Table) (p : Ptr) (f : ThreadInfo → ThreadInfo)
    → t.live p ≡ true
    → set_fields p f t ≡ ok tt (record t { cell = update t.cell p (f (t.cell p)) })
unfolding set_fields
set_fields-live t p f h = rw h

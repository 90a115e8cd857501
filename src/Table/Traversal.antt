-- ===== src/Table/Traversal.antt =====
-- `fdtable_traversal` and `fdtable_traversal_reverse` of fdtable.c, and `print_table_info` of print.c:
-- loops over all entries, with what they print of each in order. The first two print with the macro
-- DEBUG_FDTABLE of debug.h, which is empty unless `__DEBUG_FDTABLE__` is defined; no active line of
-- build.sh defines it. Here it is.
pub mod Order
use core_partitioning.Base.{ℕ, zero, suc, ℤ, List, [], ◌∷◌, ◌++◌, ◌==◌, if◌then◌else◌}
use core_partitioning.Table.{
  Ptr, ThreadInfo, Table, Run, ok, fault, exit, out_of_fuel, load, get_next, get_prev, get_header,
  ◌>>=◌, pure,
}
use core_partitioning.Table.Fork.{get_tail}

-- `while (end != tmp) { print; tmp = step(tmp); }`, where `show` is what is printed of a node.
unfoldable pub walk :
    {A : Type 0}
    → (show : ThreadInfo → A) (step : Ptr → Table → Run Ptr) → (end : Ptr) (fuel : ℕ) (tmp : Ptr)
    → Table
    → Run (List A)
walk show step end zero tmp = λ _. out_of_fuel
walk show step end (suc fuel) tmp = if end == tmp then pure [] else (do
  n ← load tmp
  next ← step tmp
  rest ← walk show step end fuel next
  pure (show n ∷ rest))

-- "fd :: %d   tid :: %lu".
pub record FdLine : Type 0 where
  pub fd : ℤ
  pub tid : ℕ

abbrev pub fd_line : ThreadInfo → FdLine
fd_line n = record { fd = n.thr_fd; tid = n.p_thread }

unfoldable pub traversal : (fuel : ℕ) → Table → Run (List FdLine)
traversal fuel = do
  header ← get_header
  tail ← get_tail
  tmp ← get_next header
  walk fd_line get_next tail fuel tmp

unfoldable pub traversal_reverse : (fuel : ℕ) → Table → Run (List FdLine)
traversal_reverse fuel = do
  header ← get_header
  tail ← get_tail
  tmp ← get_prev tail
  walk fd_line get_prev header fuel tmp

pub data Caller : Type 0 where
  call_by_function : Caller
  call_by_thread : Caller
  call_by_funcrecv : Caller
  call_by_funcsend : Caller
  call_by_thrrecv : Caller
  call_by_thrsend : Caller
  call_by_forkchild : Caller
  call_by_forkparent : Caller
  call_by_other : Caller  -- any other `int`

-- The line of the caller, the lines "fd : %d message : %x", and the rule at the end.
pub data InfoLine : Type 0 where
  banner : Caller → InfoLine
  entry : (fd : ℤ) (message : Ptr) → InfoLine
  rule : InfoLine

abbrev pub info_line : ThreadInfo → InfoLine
info_line n = entry n.thr_fd n.message

abbrev pub between : InfoLine → List InfoLine → List InfoLine
between first ls = first ∷ (ls ++ rule ∷ [])

unfoldable pub print_table_info : (fuel : ℕ) → Caller → Table → Run (List InfoLine)
print_table_info fuel caller = do
  header ← get_header
  tail ← get_tail
  tmp ← get_next header
  lines ← walk info_line get_next tail fuel tmp
  pure (between (banner caller) lines)

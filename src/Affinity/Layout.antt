-- ===== src/Affinity/Layout.antt =====
-- `set_cpu` of affinity.c with APP and `__FILEIO__`, where `current_core` is taken to be `currnet_core`,
-- the running core, and `set_affinity_within`.
pub mod Shared
use core_partitioning.Base.{
  ℕ, zero, suc, ◌+◌, ◌-◌, ◌/◌, ℤ, pos, negsuc, Option, none, some, ◌>>=◌, List, [], ◌∷◌, ◌==◌, ltb,
  if◌then◌else◌,
}
use core_partitioning.Kernel.App.{Socket, App}
use core_partitioning.Affinity.{cpu_set}
use core_partitioning.Affinity.Lines.{read_lines}
use core_partitioning.Affinity.App.{apps_at}
use core_partitioning.Affinity.Sockets.{cores_per_socket}
use core_partitioning.Affinity.Status.{ProcFiles, tid_cpu}

abbrev pub node : App → ℕ → Socket
node a zero = a.low
node a (suc _) = a.high

-- `for (i = net_end + 1; i < blk_start; i++)`, and `for (i = blk_start; i < blk_end; i++)`.
abbrev pub layout_mask : (net_or_file : ℕ) → Socket → List ℕ
layout_mask kind s =
    if kind == 0
    then cpu_set (s.blk_start - (s.net_end + 1)) (s.net_end + 1)
    else cpu_set (s.blk_end - s.blk_start) s.blk_start

unfoldable pub set_cpu_layout : (net_or_file core : ℕ) → (dynamic : List ℕ) → List ℕ
set_cpu_layout kind core dynamic =
    let s = apps_at (read_lines 8 12 dynamic) in layout_mask kind (node s (core / cores_per_socket))

abbrev pub one_node : ℕ
one_node = 10

abbrev pub socket_of : ℤ → ℕ
socket_of (pos n) = if ltb n one_node then 0 else 1
socket_of (negsuc n) = 0

-- `set_affinity_within`: the argument `socket` with which it calls `set_cpu`, and its result. What
-- `sched_getcpu` returns is handed to `get_tid_cpu` as the id of a thread.
unfoldable pub set_affinity_within : ProcFiles → (core : ℕ) → Option (ℕ × ℕ)
set_affinity_within p core = tid_cpu p core >>= λ app_cpu. some (socket_of app_cpu, 0)

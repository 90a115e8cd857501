-- ===== src/Preload/Place.antt =====
-- The core on which a thread of ld_preload.c puts itself when it starts, in the builds with `__ONE__`,
-- `__RR__` and `__RR2__`. The variable `cpu` is shared by all threads of the process, which are taken to
-- start one after the other.
pub mod Cycle
use core_partitioning.Base.{ℕ, ◌+◌, List, [], ◌∷◌, leb, if◌then◌else◌}
use core_partitioning.Affinity.Layout.{one_node}

pub data Build : Type 0 where
  one : Build
  rr : Build
  rr2 : Build

-- `syscall_thread`, `ku_select` and `stat_syscall`.
pub data Starting : Type 0 where
  syscall_thread : Starting
  select_thread : Starting
  stat_thread : Starting

abbrev pub two_node : ℕ
two_node = 20

-- With `__RR__` the functions begin again at different cores.
abbrev pub restart : Starting → ℕ
restart syscall_thread = 2
restart select_thread = 1
restart stat_thread = 1

-- What the thread does to `cpu`, the core that it then asks for.
unfoldable pub next_cpu : Build → Starting → (cpu : ℕ) → ℕ
next_cpu one k cpu = 1
next_cpu rr k cpu = if leb one_node cpu then restart k else cpu + 1
next_cpu rr2 k cpu = if leb two_node cpu then one_node + 1 else cpu + 1

-- The cores of threads that start one after the other.
unfoldable pub place : Build → List Starting → (cpu : ℕ) → List ℕ
place b [] cpu = []
place b (k ∷ ks) cpu = let c = next_cpu b k cpu in c ∷ place b ks c

-- ===== src/Affinity/Layout/Shared.antt =====
-- The cores that affinity.c gives to system call threads with APP, and the groups of the kernel module.
use core_partitioning.Base.{
  ℕ, zero, suc, ◌+◌, ◌-◌, ◌/◌, ◌<◌, ◌≡◌, ◌≢◌, List, [], arith, ◌≤◌, get_elem?, some, ap, ◌∙◌, ne→==,
  Returns, Returns-mono,
}
use core_partitioning.Kernel.Util.{max_cpus}
use core_partitioning.Kernel.App.{Socket, App, init}
use core_partitioning.Kernel.App.Partition.{IsPartition}
use core_partitioning.Kernel.App.Ticks.{IsLayout, run, run-IsLayout}
use core_partitioning.Affinity.Cores.{Group, cpu_set-Group}
use core_partitioning.Affinity.Lines.{app_lines, show_stat_app}
use core_partitioning.Affinity.Lines.RoundTrip.{read_lines-lines}
use core_partitioning.Affinity.App.Least.{small}
use core_partitioning.Affinity.Sockets.{cores_per_socket}
use core_partitioning.Affinity.Layout.{node, layout_mask, set_cpu_layout}

-- The masks of the two kinds of threads, on a socket of the module's layout.
pub record Shared (s : Socket) (net_mask file_mask : List ℕ) : Type 0 where
  pub net : Group (s.net_end + 1) (s.blk_start - 1) net_mask
  pub files : Group s.blk_start (s.blk_end - 1) file_mask
  pub shares :
      (c : ℕ) → s.app_start ≤ c → c < s.blk_start → (i : ℕ) × (get_elem? net_mask i ≡ some c)

node-IsPartition :
    (a : App) → IsLayout a → (k : ℕ) → IsPartition (node a k) × (9 ≤ (node a k).blk_end)
node-IsPartition a v zero = (v.low, omega (arith, v.low_range))
node-IsPartition a v (suc k) = (v.high, omega (arith, v.high_range))

group_core :
    (first last : ℕ) (cores : List ℕ)
    → Group first last cores
    → (c : ℕ) → first ≤ c
    → c ≤ last
    → (i : ℕ) × (get_elem? cores i ≡ some c)
group_core first last cores g c h k =
    (c - first, g.each (c - first) (omega (arith, g.all)) ∙ ap some (omega arith))

-- On a socket of a partition.
layout_mask-Shared :
    (s : Socket) (kind : ℕ)
    → IsPartition s
    → 9 ≤ s.blk_end
    → kind ≢ 0
    → Shared s (layout_mask 0 s) (layout_mask kind s)
layout_mask-Shared s kind v h ne =
    let g =
      cpu_set-Group (s.blk_start - (s.net_end + 1)) (s.net_end + 1) (s.blk_start - 1)
        (omega (arith, v)) in
    rw (ne→== kind 0 ne) (record {
      net = g;
      files =
          cpu_set-Group (s.blk_end - s.blk_start) s.blk_start (s.blk_end - 1) (omega (arith, v));
      shares = λ c above below.
          group_core (s.net_end + 1) (s.blk_start - 1) _ g c (omega (arith, v)) (omega arith);
    })

abbrev pub LayoutReads : (kind core : ℕ) → App → Type 0
LayoutReads kind core a =
    IsLayout a
    × Shared (node a (core / cores_per_socket)) (set_cpu_layout 0 core (show_stat_app a))
        (set_cpu_layout kind core (show_stat_app a))

set_cpu_layout-Shared :
    (kind core : ℕ) → kind ≢ 0 → (a : App) → IsLayout a → LayoutReads kind core a
unfolding set_cpu_layout show_stat_app
set_cpu_layout-Shared kind core ne a v =
    let (part, last) = node-IsPartition a v (core / cores_per_socket) in
    rw (read_lines-lines 8 (app_lines a.low (app_lines a.high [])) (omega arith) (small a v))
      (v, layout_mask-Shared (node a (core / cores_per_socket)) kind part last ne)

-- From the module's initial layout no sequence of measured loads makes a tick in APP mode fault, and
-- after all of them each socket is partitioned within its ten cores, the application group overlapping
-- the block group by two cores. From the proc file that the module then prints, on a core of one of the
-- two sockets, `set_cpu` gives a network thread the cores of the running core's socket from the one
-- after `net_end` up to the one before `blk_start`, among them all application cores before `blk_start`,
-- and a file thread the block cores but the last.
pub run-Shared :
    (ps : List (ℕ → ℕ)) (kind core : ℕ)
    → kind ≢ 0
    → core < max_cpus
    → Returns (LayoutReads kind core) (run ps init)
run-Shared ps kind core ne h =
    Returns-mono IsLayout (LayoutReads kind core) _ (run-IsLayout ps)
      (set_cpu_layout-Shared kind core ne)

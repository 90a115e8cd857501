-- ===== src/Examples/Cores.antt =====
-- The cores that threads get on a machine with several sockets, from the first values of the modes.
use core_partitioning.Base.{
  List, some, pos, Returns, get_elem?, ◌<◌, ℕ, ◌+◌, ◌-◌, ◌/◌, ◌≡◌, [], ◌∷◌, length, arith,
}
use core_partitioning.Kernel.Util.{max_cpus}
use core_partitioning.Kernel.Sockets.{Socket, at, init as sockets_init}
use core_partitioning.Kernel.Sockets.Ticks.{init-IsState}
use core_partitioning.Kernel.App.{init as app_init}
use core_partitioning.Kernel.App.Ticks.{init-IsLayout}
use core_partitioning.Affinity.{cpu_set}
use core_partitioning.Affinity.Cores.{Group}
use core_partitioning.Affinity.Lines.{show_stat, show_stat_cross, show_stat_per, show_stat_app}
use core_partitioning.Affinity.Sockets.{cores_per_socket, set_cpu_cross, set_cpu_per}
use core_partitioning.Affinity.Sockets.Masks.{OnSockets, set_cpu_cross-OnSockets, set_cpu_per-Group}
use core_partitioning.Affinity.App.{lower, migration, set_cpu_app}
use core_partitioning.Affinity.App.Least.{Least, loads_for, set_cpu_app-Least}

set_cpu_cross-OnSockets_example :
    OnSockets
      (λ c. c.net_end + 1)
      (λ c. c.blk_start - 1)
      sockets_init
      (set_cpu_cross 0 (show_stat_cross sockets_init))
    × OnSockets
        (λ c. c.blk_start)
        (λ c. c.blk_end)
        sockets_init
        (set_cpu_cross 1 (show_stat_cross sockets_init))
set_cpu_cross-OnSockets_example = set_cpu_cross-OnSockets sockets_init init-IsState 1 (omega arith)

abbrev socket_of_13 : Socket
socket_of_13 = at sockets_init.per (13 / cores_per_socket)

set_cpu_per-Group_example :
    Returns
      (Group (socket_of_13.net_end + 1) (socket_of_13.blk_start - 1))
      (set_cpu_per 0 13 (show_stat_per sockets_init))
    × Returns
        (λ mask.
          (length mask + socket_of_13.blk_start ≡ socket_of_13.blk_end)
          × ((i : ℕ)
              → socket_of_13.blk_start + i < socket_of_13.blk_end
              → get_elem? mask i ≡ some (socket_of_13.blk_start + i)))
        (set_cpu_per 1 13 (show_stat_per sockets_init))
set_cpu_per-Group_example =
    set_cpu_per-Group sockets_init init-IsState 1 13 (omega arith) (omega arith)

-- Every core is half loaded.
abbrev half : ℕ → ℕ
half c = 50

set_cpu_app-Least_example :
    (r : ℕ × List ℕ) × (set_cpu_app
        (pos 6)
        (show_stat half (cpu_set max_cpus 0))
        (show_stat_app app_init)
      ≡ some r)
    × (first : ℕ) × Least
        (loads_for half 6)
        app_init.high.app_start
        (app_init.high.app_start + 1)
        app_init.high.blk_start
        first
    × Least
        (lower (loads_for half 6) first migration)
        first
        (app_init.low.app_start + 1)
        app_init.low.blk_start
        r.0
    × (r.1 ≡ 2 ∷ [])
set_cpu_app-Least_example =
    set_cpu_app-Least half (λ c. omega arith) app_init init-IsLayout 6 (omega arith)

-- ===== src/Affinity/App.antt =====
-- `set_cpu_app` of affinity.c: the core for an application thread, from the proc files total and
-- dynamic. The loads are kept 120 higher than in the source, which takes 90 and then 30 off one of
-- them, so that none goes below zero; only their order matters.
pub mod Least
use core_partitioning.Base.{
  ℤ, pos, negsuc, Option, some, none, if◌then◌else◌, ℕ, map, zero, suc, ◌+◌, ◌-◌, List, [], ◌∷◌,
  get_or, set, ltb,
}
use core_partitioning.Kernel.Util.{max_cpus}
use core_partitioning.Kernel.Sockets.{number_of_sockets}
use core_partitioning.Kernel.App.{Socket, App}
use core_partitioning.Affinity.Lines.{read_lines}

abbrev pub proc_max_len : ℕ
proc_max_len = 1024

-- The core the thread runs on counts 90 less, and the first choice, on the other node, 30 less.
abbrev pub own_core : ℕ
own_core = 90

abbrev pub migration : ℕ
migration = 30

abbrev pub raised : ℕ → ℕ
raised n = n + (own_core + migration)

abbrev pub lower : List ℕ → (core by : ℕ) → List ℕ
lower loads core by = set loads core (get_or loads core 0 - by)

-- `total_buf_int` once the running core is taken into account.
unfoldable pub read_total : (app_core : ℕ) → (total : List ℕ) → List ℕ
read_total app_core total =
    lower (map raised (read_lines (proc_max_len - 2) max_cpus total)) app_core own_core

-- The six numbers of a socket, from number `i` on.
abbrev pub app_at : List ℕ → ℕ → Socket
app_at ns i = record {
  net_start = get_or ns i 0;
  net_end = get_or ns (1 + i) 0;
  app_start = get_or ns (2 + i) 0;
  app_end = get_or ns (3 + i) 0;
  blk_start = get_or ns (4 + i) 0;
  blk_end = get_or ns (5 + i) 0;
}

abbrev pub apps_at : List ℕ → App
apps_at ns = record { low = app_at ns 0; high = app_at ns 6 }

-- `if (total_buf_int[minimum] > total_buf_int[app_cpu]) minimum = app_cpu;` for `rounds` cores.
unfoldable pub least_from : (loads : List ℕ) → (rounds app_cpu minimum : ℕ) → ℕ
least_from loads zero app_cpu minimum = minimum
least_from loads (suc rounds) app_cpu minimum =
    least_from loads rounds (app_cpu + 1)
      (if ltb (get_or loads app_cpu 0) (get_or loads minimum 0) then app_cpu else minimum)

-- The loop over the cores of a socket, which starts after `app_start`.
abbrev pub least_on : (loads : List ℕ) → Socket → (minimum : ℕ) → ℕ
least_on loads s minimum =
    least_from loads (s.blk_start - (s.app_start + 1)) (s.app_start + 1) minimum

-- `minimum` after the first loop, and after the second.
unfoldable pub first_choice : (loads : List ℕ) → App → ℕ
first_choice loads s = least_on loads s.high s.high.app_start

unfoldable pub choice : (loads : List ℕ) → App → ℕ
choice loads s =
    let minimum = first_choice loads s in least_on (lower loads minimum migration) s.low minimum

-- The counter of a loop of `rounds` rounds, after it.
unfoldable pub counter_after : (rounds i : ℕ) → ℕ
counter_after zero i = i
counter_after (suc rounds) i = counter_after rounds (i + 1)

-- The core chosen, and the mask: `CPU_SET(i, &mask)`, where `i` is the counter of the loop over the
-- sockets. `app_core` is what `get_tid_cpu` returns; where it is no core, as -1 for a file that cannot be
-- opened, the write at that index is outside the array: `none`.
unfoldable pub set_cpu_app : (app_core : ℤ) → (total dynamic : List ℕ) → Option (ℕ × List ℕ)
set_cpu_app (negsuc n) total dynamic = none
set_cpu_app (pos app_core) total dynamic =
    let loads = read_total app_core total in
    let s = apps_at (read_lines 8 12 dynamic) in
    if ltb app_core max_cpus
    then some (choice loads s, counter_after number_of_sockets 0 ∷ [])
    else none

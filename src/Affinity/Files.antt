-- ===== src/Affinity/Files.antt =====
-- The proc files of simple_proc_ktimer/simple_proc.c with APP as a reader opens them: `stat_open_user` and
-- its companions, and the tables of file operations that lead to them.
pub mod Fits
use core_partitioning.Base.{ℕ, ◌+◌, ◌*◌, List, length}
use core_partitioning.Kernel.App.{App}
use core_partitioning.Kernel.Proc.{Entry, user, system, intr, total, dynamic}
use core_partitioning.Affinity.Lines.{show_stat, show_stat_app}

-- The globals that the files show, and the cores that are on line.
pub record Globals : Type 0 where
  pub p_user : ℕ → ℕ
  pub p_system : ℕ → ℕ
  pub p_irq : ℕ → ℕ
  pub p_total : ℕ → ℕ
  pub app : App
  pub online : List ℕ
  pub nr_irqs : ℕ  -- the source defines it as 64; here it is any number

-- `single_open_size(file, show, NULL, size)`: what the file shows, and the size of the buffer for it.
pub record Opened : Type 0 where
  pub shown : List ℕ
  pub size : ℕ

-- 1024 + 128 * num_online_cpus(), and two bytes for each interrupt.
abbrev pub open_size : Globals → ℕ
open_size g = 1024 + 128 * length g.online + 2 * g.nr_irqs

unfoldable pub stat_open_user : Globals → Opened
stat_open_user g = record { shown = show_stat g.p_user g.online; size = open_size g }

unfoldable pub stat_open_system : Globals → Opened
stat_open_system g = record { shown = show_stat g.p_system g.online; size = open_size g }

unfoldable pub stat_open_irq : Globals → Opened
stat_open_irq g = record { shown = show_stat g.p_irq g.online; size = open_size g }

unfoldable pub stat_open_total : Globals → Opened
stat_open_total g = record { shown = show_stat g.p_total g.online; size = open_size g }

unfoldable pub stat_open_dynamic : Globals → Opened
stat_open_dynamic g = record { shown = show_stat_app g.app; size = open_size g }

-- The file operations with which `init_simpleproc` creates each entry.
unfoldable pub open_entry : Entry → Globals → Opened
open_entry user = stat_open_user
open_entry system = stat_open_system
open_entry intr = stat_open_irq
open_entry total = stat_open_total
open_entry dynamic = stat_open_dynamic

-- ===== src/Examples/Whole.antt =====
-- The module and the library together, from the module's first values.
use core_partitioning.Base.{ℕ, ◌+◌, ◌*◌, refl, [], ◌∷◌, List, map, Returns, ◌>>=◌, arith, length}
use core_partitioning.Kernel.Single.{tick, init}
use core_partitioning.Kernel.Single.Runs.{run}
use core_partitioning.Kernel.App.{init as app_init}
use core_partitioning.Kernel.App.Ticks.{init-IsLayout, run as app_run}
use core_partitioning.Kernel.Proc.{dynamic}
use core_partitioning.Kernel.Mode.{single, mode_of}
use core_partitioning.Kernel.Mode.Steady.{steady_of}
use core_partitioning.Kernel.Timer.{registertimer, elapse}
use core_partitioning.Kernel.Timer.Seconds.{
  Second, jiffies_of, loaded, AfterTicks, elapse-AfterTicks,
}
use core_partitioning.Affinity.Isolation.{Reads, run-Isolated}
use core_partitioning.Affinity.Layout.Shared.{LayoutReads, run-Shared}
use core_partitioning.Affinity.Files.{Globals, open_entry}
use core_partitioning.Affinity.Files.Fits.{numbers, Readable, IsShown, open_entry-Readable}

-- All cores are busy, or half busy.
abbrev busy : ℕ → ℕ
busy c = 95

abbrev half : ℕ → ℕ
half c = 50

run-Isolated_example : Returns (Reads 1) (run (busy ∷ half ∷ []) init >>= tick busy)
run-Isolated_example = run-Isolated (busy ∷ half ∷ []) busy 1 (omega arith)

run-Shared_example : Returns (LayoutReads 1 13) (app_run (busy ∷ half ∷ []) app_init)
run-Shared_example = run-Shared (busy ∷ half ∷ []) 1 13 (omega arith) (omega arith)

-- Two seconds of three jiffies.
abbrev seconds : List (Second (ℕ → ℕ))
seconds =
    (record { before = busy ∷ half ∷ []; due = busy })
    ∷ (record { before = half ∷ half ∷ []; due = half })
    ∷ []

elapse-AfterTicks_example :
    Returns
      (AfterTicks
        (mode_of single)
        (steady_of single)
        3
        (100 + 3 * length seconds)
        (map (λ s. s.due) seconds))
      (registertimer 3 (loaded 100 init) >>= elapse (mode_of single) 3 (jiffies_of seconds))
elapse-AfterTicks_example = elapse-AfterTicks single 3 100 seconds (refl, (refl, tt)) (omega arith)

abbrev globals : Globals
globals = record {
  p_user = half;
  p_system = half;
  p_irq = half;
  p_total = busy;
  app = app_init;
  online = 0 ∷ 1 ∷ 2 ∷ [];
  nr_irqs = 64;
}

-- The percentages of three cores.
globals-IsShown : IsShown globals
globals-IsShown = record {
  user_small = (omega arith, (omega arith, (omega arith, tt)));
  system_small = (omega arith, (omega arith, (omega arith, tt)));
  irq_small = (omega arith, (omega arith, (omega arith, tt)));
  total_small = (omega arith, (omega arith, (omega arith, tt)));
  layout = init-IsLayout;
}

open_entry-Readable_example : Readable (numbers dynamic globals) (open_entry dynamic globals)
open_entry-Readable_example = open_entry-Readable dynamic globals globals-IsShown

-- ===== src/Examples/Proc.antt =====
-- The module of simple_proc_ktimer/simple_proc.c loaded and unloaded, without memory for its timer.
use core_partitioning.Base.{◌+◌, ◌≡◌, pos, negsuc, true, false, if◌then◌else◌}
use core_partitioning.Kernel.Proc.{Kernel, init_simpleproc, exit_simpleproc}
use core_partitioning.Kernel.Proc.Life.{absent, present, all_created, init-exit}

abbrev no_memory : Kernel
no_memory = record { mkdir = true; create = λ n. true; kmalloc = false }

init-exit_example :
    (init_simpleproc no_memory (absent 0) ≡ (
      if all_created no_memory
      then (if no_memory.kmalloc then (pos 0, present true 0) else (negsuc 11, present false 0))
      else (negsuc 0, absent (0 + 1))))
    × (exit_simpleproc (present true 0) ≡ absent 0)
init-exit_example = init-exit no_memory 0

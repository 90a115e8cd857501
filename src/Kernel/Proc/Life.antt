-- ===== src/Kernel/Proc/Life.antt =====
-- What loading and unloading the module of simple_proc_ktimer/simple_proc.c leaves behind.
use core_partitioning.Base.{ℕ, ◌+◌, ◌≡◌, pos, negsuc, Bool, true, false, ◌&&◌, arith, if◌then◌else◌}
use core_partitioning.Kernel.Proc.{
  user, system, intr, total, dynamic, Proc, remove_file, remove_files, remove_dir, Kernel, create,
  start_timer, init_simpleproc, exit_simpleproc,
}

-- Nothing of the module is there.
abbrev pub absent : (warnings : ℕ) → Proc
absent n = record {
  dir = false;
  user = false;
  system = false;
  intr = false;
  total = false;
  dynamic = false;
  ptrmng = false;
  timer = false;
  warnings = n;
}

abbrev pub all_created : Kernel → Bool
all_created k =
    k.mkdir
    && k.create user
    && k.create system
    && k.create intr
    && k.create total
    && k.create dynamic

-- All of the module is there, the timer too if `timer`.
abbrev pub present : (timer : Bool) → (warnings : ℕ) → Proc
present timer n = record {
  dir = true;
  user = true;
  system = true;
  intr = true;
  total = true;
  dynamic = true;
  ptrmng = timer;
  timer = timer;
  warnings = n;
}

-- If every call succeeds, `init_simpleproc` returns 0 with everything made and the timer running. If only
-- the memory for the timer is missing, it returns -12 and leaves the directory and all five files
-- behind. If the directory or one of the files cannot be made, it returns -1 and leaves nothing behind,
-- but it has removed the very entry that it could not make, which is one warning. `exit_simpleproc`
-- takes everything away again, without a warning.
pub init-exit :
    (k : Kernel) (n : ℕ)
    → (init_simpleproc k (absent n) ≡ (
        if all_created k
        then (if k.kmalloc then (pos 0, present true n) else (negsuc 11, present false n))
        else (negsuc 0, absent (n + 1))))
      × (exit_simpleproc (present true n) ≡ absent n)
unfolding init_simpleproc exit_simpleproc create start_timer remove_dir remove_files remove_file
init-exit k n = (ground arith, ground arith)

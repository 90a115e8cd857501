-- ===== src/Affinity/Cores.antt =====
-- The cores that affinity.c gives to system call threads, and the groups of the kernel module.
use core_partitioning.Base.{
  ℕ, zero, suc, ◌+◌, ◌-◌, ◌<◌, ◌≡◌, ◌≢◌, refl, ap, ◌∙◌, List, [], ◌∷◌, arith, some, get_elem?,
  length, ne→==,
}
use core_partitioning.Kernel.Util.{max_cpus}
use core_partitioning.Kernel.Single.{Single, blk_end}
use core_partitioning.Kernel.Single.Invariant.{IsPartition}
use core_partitioning.Affinity.{newline, print, show_stat_dynamic, cpu_set, set_cpu}
use core_partitioning.Affinity.Text.{read_line}

pub length-cpu_set : (n first : ℕ) → length (cpu_set n first) ≡ n
unfolding cpu_set
length-cpu_set zero first = refl
length-cpu_set (suc n) first = omega (arith, length-cpu_set n (first + 1))

pub get_elem?-cpu_set : (n first i : ℕ) → i < n → get_elem? (cpu_set n first) i ≡ some (first + i)
unfolding cpu_set
get_elem?-cpu_set zero first i h = absurd (omega arith)
get_elem?-cpu_set (suc n) first zero h = ap some (omega arith)
get_elem?-cpu_set (suc n) first (suc i) h =
    get_elem?-cpu_set n (first + 1) i (omega arith) ∙ ap some (omega arith)

-- The list holds the cores from `first` to `last` in their order.
pub record Group (first last : ℕ) (cores : List ℕ) : Type 0 where
  pub all : length cores + first ≡ last + 1
  pub each : (i : ℕ) → i < length cores → get_elem? cores i ≡ some (first + i)

pub cpu_set-Group : (n first last : ℕ) → n + first ≡ last + 1 → Group first last (cpu_set n first)
cpu_set-Group n first last h = record {
  all = omega (arith, length-cpu_set n first, h);
  each = λ i lt. get_elem?-cpu_set n first i (omega (arith, length-cpu_set n first));
}

-- The masks, from the proc file that the kernel module prints for a well-formed partition.
pub set_cpu_masks :
    (s : Single)
    → IsPartition s
    → (kind : ℕ) → kind ≢ 0
    → (set_cpu 0 (show_stat_dynamic s) ≡ cpu_set (s.blk_start - (s.net_end + 1)) (s.net_end + 1))
      × (set_cpu kind (show_stat_dynamic s) ≡ cpu_set (max_cpus - s.blk_start) s.blk_start)
unfolding set_cpu show_stat_dynamic
set_cpu_masks s v kind h =
    let (line, value) =
      read_line 8 s.net_end (print s.blk_start (newline ∷ [])) (omega (arith, v)) (omega arith) in
    let (line', value') = read_line 8 s.blk_start [] (omega (arith, v)) (omega arith) in
    rw (line, value, line', value', ne→== kind 0 h) (refl, refl)

-- From the proc file that the kernel module prints for a well-formed partition, `set_cpu` gives a
-- network thread exactly the cores of the net system call group, and a file thread exactly those of
-- the block group.
pub set_cpu-Group :
    (s : Single)
    → IsPartition s
    → (kind : ℕ) → kind ≢ 0
    → Group (s.net_end + 1) (s.blk_start - 1) (set_cpu 0 (show_stat_dynamic s))
      × Group s.blk_start blk_end (set_cpu kind (show_stat_dynamic s))
set_cpu-Group s v kind h =
    let (net, file) = set_cpu_masks s v kind h in
    rw (net, file)
      (
        cpu_set-Group (s.blk_start - (s.net_end + 1)) (s.net_end + 1) (s.blk_start - 1)
            (omega (arith, v)),
        cpu_set-Group (max_cpus - s.blk_start) s.blk_start blk_end (omega (arith, v)),
      )

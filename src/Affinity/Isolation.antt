-- ===== src/Affinity/Isolation.antt =====
-- The two halves together in SINGLE mode: the queues that a tick of simple_proc_ktimer/simple_proc.c
-- hints to cores, and the masks that `set_cpu` of affinity.c then reads from the proc file.
use core_partitioning.Base.{
  ℕ, zero, suc, ◌+◌, ◌-◌, ◌≤◌, ◌<◌, ◌≡◌, ◌≢◌, ◌⊎◌, inl, inr, List, arith, length, All, All-mono,
  Returns, Returns-bind, Returns-mono, ◌>>=◌,
}
use core_partitioning.Kernel.Util.{max_cpus, blk_queues, net_queues, blk, net, Hint}
use core_partitioning.Kernel.Single.{Single, blk_end, net_start, tick, init}
use core_partitioning.Kernel.Single.Invariant.{IsPartition}
use core_partitioning.Kernel.Single.Spread.{Within}
use core_partitioning.Kernel.Single.Runs.{Spread, SingleTick, tick-SingleTick, run, run-IsPartition}
use core_partitioning.Affinity.{show_stat_dynamic, cpu_set, set_cpu}
use core_partitioning.Affinity.Cores.{Group, length-cpu_set, set_cpu_masks, set_cpu-Group}

abbrev pub Outside : ℕ → List ℕ → Type 0
Outside core mask = All (λ c. c ≢ core) mask

-- The masks of network and of file threads, beside the hints of the tick.
pub record Isolated (hints : List Hint) (net_mask file_mask : List ℕ) : Type 0 where
  pub net_some : 0 < length net_mask
  pub file_some : 0 < length file_mask
  pub apart : All (λ c. Outside c file_mask) net_mask
  pub no_interrupt : All (λ h. Outside h.core net_mask) hints
  pub no_net_interrupt : All (λ h. h.queue ≡ net → Outside h.core file_mask) hints

cpu_set-bounds : (n first : ℕ) → All (λ c. (first ≤ c) × (c < first + n)) (cpu_set n first)
unfolding cpu_set
cpu_set-bounds zero first = tt
cpu_set-bounds (suc n) first = (
  omega arith,
  All-mono (λ c. (first + 1 ≤ c) × (c < first + 1 + n)) _ _ (λ c h. omega arith)
      (cpu_set-bounds n (first + 1)),
)

cpu_set-Outside :
    (n first core : ℕ) → (core < first) ⊎ (first + n ≤ core) → Outside core (cpu_set n first)
cpu_set-Outside n first core h =
    All-mono (λ c. (first ≤ c) × (c < first + n)) _ _ (λ c b. omega arith) (cpu_set-bounds n first)

module _ (s : Single) (v : IsPartition s) where
  abbrev net_mask : List ℕ
  net_mask = cpu_set (s.blk_start - (s.net_end + 1)) (s.net_end + 1)

  abbrev file_mask : List ℕ
  file_mask = cpu_set (max_cpus - s.blk_start) s.blk_start

  masks_apart : All (λ c. Outside c file_mask) net_mask
  masks_apart =
      All-mono (λ c. (s.net_end + 1 ≤ c) × (c < s.net_end + 1 + (s.blk_start - (s.net_end + 1)))) _
        _ (λ c b. cpu_set-Outside _ s.blk_start c (inl (omega (arith, v))))
        (cpu_set-bounds (s.blk_start - (s.net_end + 1)) (s.net_end + 1))

  blk-Isolated :
      (hints : List Hint)
      → Spread blk s.blk_start (blk_end + 1 - s.blk_start) blk_queues hints
      → Isolated hints net_mask file_mask
  blk-Isolated hints spread = record {
    net_some = omega (arith, v, length-cpu_set (s.blk_start - (s.net_end + 1)) (s.net_end + 1));
    file_some = omega (arith, v, length-cpu_set (max_cpus - s.blk_start) s.blk_start);
    apart = masks_apart;
    no_interrupt =
        All-mono (Within blk s.blk_start (blk_end + 1 - s.blk_start)) _ hints
          (λ h w. cpu_set-Outside _ (s.net_end + 1) h.core (inr (omega (arith, v, w))))
          spread.within;
    no_net_interrupt =
        All-mono (Within blk s.blk_start (blk_end + 1 - s.blk_start)) _ hints
          (λ h w e. absurd (other h w e)) spread.within;
  }
    where
      other : (h : Hint) → Within blk s.blk_start (blk_end + 1 - s.blk_start) h → h.queue ≢ net
      other h w e = cc w.queue

  net-Isolated :
      (hints : List Hint)
      → Spread net net_start (s.net_end + 1 - net_start) net_queues hints
      → Isolated hints net_mask file_mask
  net-Isolated hints spread = record {
    net_some = omega (arith, v, length-cpu_set (s.blk_start - (s.net_end + 1)) (s.net_end + 1));
    file_some = omega (arith, v, length-cpu_set (max_cpus - s.blk_start) s.blk_start);
    apart = masks_apart;
    no_interrupt =
        All-mono (Within net net_start (s.net_end + 1 - net_start)) _ hints
          (λ h w. cpu_set-Outside _ (s.net_end + 1) h.core (inl (omega (arith, v, w))))
          spread.within;
    no_net_interrupt =
        All-mono (Within net net_start (s.net_end + 1 - net_start)) _ hints
          (λ h w e. cpu_set-Outside _ s.blk_start h.core (inl (omega (arith, v, w)))) spread.within;
  }

-- What a thread of each kind reads after a tick.
pub record Reads (kind : ℕ) (r : Single × List Hint) : Type 0 where
  pub net : Group (r.0.net_end + 1) (r.0.blk_start - 1) (set_cpu 0 (show_stat_dynamic r.0))
  pub files : Group r.0.blk_start blk_end (set_cpu kind (show_stat_dynamic r.0))
  pub isolated :
      Isolated r.1 (set_cpu 0 (show_stat_dynamic r.0)) (set_cpu kind (show_stat_dynamic r.0))

tick-Isolated :
    (s : Single) (r : Single × List Hint)
    → SingleTick s r
    → (t : IsPartition r.0) → Isolated r.1 (net_mask r.0 t) (file_mask r.0 t)
tick-Isolated s r t v = elim t.hints [
  | inl (_, spread) ↦ blk-Isolated r.0 v r.1 spread
  | inr (_, spread) ↦ net-Isolated r.0 v r.1 spread
]

tick-Reads :
    (kind : ℕ) → kind ≢ 0 → (s : Single) (r : Single × List Hint) → SingleTick s r → Reads kind r
tick-Reads kind ne s r t =
    let (net_eq, file_eq) = set_cpu_masks r.0 t.partition kind ne in
    let groups = set_cpu-Group r.0 t.partition kind ne in
    record {
      net = groups.0;
      files = groups.1;
      isolated = rw (net_eq, file_eq) (tick-Isolated s r t t.partition);
    }

-- After any run of ticks from the module's initial partition, whatever the loads, one more tick does not
-- fault, and from the proc file that the module then prints `set_cpu` gives network threads exactly the
-- cores of the net system call group, and file threads those of the block group: some cores each, none
-- in common. The tick hints no queue to a core of the network threads, and no net queue to a core of
-- the file threads.
pub run-Isolated :
    (ps : List (ℕ → ℕ)) (p : ℕ → ℕ) (kind : ℕ)
    → kind ≢ 0
    → Returns (Reads kind) (run ps init >>= tick p)
run-Isolated ps p kind ne =
    Returns-bind IsPartition (Reads kind) _ _ (run-IsPartition ps) λ s v.
      Returns-mono (SingleTick s) (Reads kind) _ (tick-SingleTick p s v) (tick-Reads kind ne s)

-- ===== src/Kernel/Single/Response.antt =====
-- How the SINGLE mode of simple_proc_ktimer/simple_proc.c answers the measured load.
use core_partitioning.Base.{ℕ, ◌+◌, ◌-◌, ◌*◌, ◌/◌, ◌≤◌, ◌<◌, ◌≡◌, ◌↔◌, some, arith, Returns}
use core_partitioning.Kernel.Util.{t_high, load, per_core, load-split}
use core_partitioning.Kernel.Single.{Single, blk_end, net_start, blk_cores, sys_cores, adjust_blk}
use core_partitioning.Kernel.Single.Invariant.{IsPartition}

-- In a well-formed partition the three loads that a turn reads add up to the load of the cores 10
-- to 19: each core is counted in one group and in one only.
pub load_groups :
    (p : ℕ → ℕ) (s : Single)
    → IsPartition s
    → load p net_start s.net_end
        + load p (s.net_end + 1) (s.blk_start - 1)
        + load p s.blk_start blk_end
      ≡ load p net_start blk_end
load_groups p s v = omega (
  arith,
  load-split p net_start s.net_end blk_end (omega (arith, v)) (omega (arith, v)),
  load-split p (s.net_end + 1) (s.blk_start - 1) blk_end (omega (arith, v)) (omega (arith, v)),
  pred_suc,
)
  where
    pred_suc : load p (s.blk_start - 1 + 1) blk_end ≡ load p s.blk_start blk_end
    pred_suc = let e : s.blk_start - 1 + 1 ≡ s.blk_start = omega (arith, v) in rw e

-- The block group grows by a core exactly when it is above the high mark, busier per core than the
-- net system call group, and that group has three cores or more.
pub blk_grows :
    (b n : ℕ) (s : Single)
    → IsPartition s
    → Returns
        (λ s'.
          (s'.blk_start + 1 ≡ s.blk_start)
          ↔ (t_high * blk_cores s < b) × (n / sys_cores s < b / blk_cores s) × (3 ≤ sys_cores s))
        (adjust_blk b n s)
unfolding adjust_blk per_core
blk_grows b n s v = ground arith

-- A block group above the high mark whose cores are idler than those of the net system call group
-- gives up no core, if the load of that group spread over `blk_start - net_start - 1` cores does
-- not exceed the block group's average: the source divides by that number and not by the number
-- of the group's cores.
pub blk_kept :
    (b n : ℕ) (s : Single)
    → IsPartition s
    → t_high * blk_cores s < b
    → b / blk_cores s < n / sys_cores s
    → n / (s.blk_start - net_start - 1) ≤ b / blk_cores s
    → adjust_blk b n s ≡ some s
unfolding adjust_blk per_core
blk_kept b n s v high busier wrong = ground arith

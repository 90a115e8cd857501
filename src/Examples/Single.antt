-- ===== src/Examples/Single.antt =====
-- The SINGLE mode at concrete loads.
use core_partitioning.Base.{ℕ, Returns, ltb, if◌then◌else◌}
use core_partitioning.Kernel.Single.{tick, init}
use core_partitioning.Kernel.Single.Invariant.{init-IsPartition}
use core_partitioning.Kernel.Single.Runs.{SingleTick, tick-SingleTick}

-- The block queue cores are busy, the others are not.
abbrev busy_blk : ℕ → ℕ
busy_blk j = if ltb 15 j then 90 else 20

tick-SingleTick_example : Returns (SingleTick init) (tick busy_blk init)
tick-SingleTick_example = tick-SingleTick busy_blk init init-IsPartition

-- ===== src/Kernel/Single/Invariant.antt =====
-- The boundaries of the SINGLE mode of simple_proc_ktimer/simple_proc.c: well-formedness, and what
-- one adjustment may change.
use core_partitioning.Base.{ℕ, ◌+◌, ◌≤◌, ◌≡◌, arith, Returns}
use core_partitioning.Kernel.Util.{per_core}
use core_partitioning.Kernel.Single.{
  Single, blk_end, net_start, adjust_blk, adjust_net, grow_net, shrink_net, init,
}

-- Each group has a core, and the net system call group has two at least.
pub record IsPartition (s : Single) : Type 0 where
  pub net_some : net_start ≤ s.net_end
  pub sys_two : s.net_end + 3 ≤ s.blk_start
  pub blk_some : s.blk_start ≤ blk_end
  pub turn_known : s.dynamic_turn ≤ 1

-- A boundary moves by one core at most.
abbrev pub Near : ℕ → ℕ → Type 0
Near a b = (a ≤ b + 1) × (b ≤ a + 1)

pub record Adjusted (s s' : Single) : Type 0 where
  pub partition : IsPartition s'
  pub blk_near : Near s.blk_start s'.blk_start
  pub net_near : Near s.net_end s'.net_end
  pub same_turn : s'.dynamic_turn ≡ s.dynamic_turn

module _ (s : Single) (v : IsPartition s) where
  pub adjust_blk-Adjusted : (b n : ℕ) → Returns (Adjusted s) (adjust_blk b n s)
  unfolding adjust_blk per_core
  adjust_blk-Adjusted b n = ground arith

  pub adjust_net-Adjusted : (q n b : ℕ) → Returns (Adjusted s) (adjust_net q n b s)
  unfolding adjust_net grow_net shrink_net per_core
  adjust_net-Adjusted q n b = ground arith

pub init-IsPartition : IsPartition init
unfolding init
init-IsPartition = omega arith

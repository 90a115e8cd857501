-- ===== src/Kernel/App/Partition.antt =====
-- The exchange of a core between two groups of a socket in simple_proc_ktimer/simple_proc.c.
use core_partitioning.Base.{
  ℕ, zero, suc, ◌+◌, ◌≤◌, ◌<◌, ◌≡◌, ◌≢◌, arith, Bool, ◌&&◌, ltb, leb, ◌==◌, if◌then◌else◌,
}
use core_partitioning.Kernel.App.{
  Socket, Row, entry, core_counter, to_net_queue, to_net_sys, to_app, to_blk, shift, t_change,
}

-- Each group has a core. The application group reaches two cores into the block group, as
-- `init_simpleproc` lays it out.
pub record IsPartition (s : Socket) : Type 0 where
  pub net_some : s.net_start ≤ s.net_end
  pub sys_some : s.net_end + 2 ≤ s.app_start
  pub app_some : s.app_start ≤ s.app_end
  pub blk_some : s.blk_start ≤ s.blk_end
  pub overlap : s.app_end ≡ s.blk_start + 1

pub record Kept (s s' : Socket) : Type 0 where
  pub partition : IsPartition s'
  pub first : s'.net_start ≡ s.net_start
  pub last : s'.blk_end ≡ s.blk_end

-- Whether a core moves, and how the count of group `g` changes by it.
abbrev pub moves : (cores util : Row) → (max min : ℕ) → Bool
moves cores u max min = leb 2 (entry cores min) && ltb (entry u min + t_change) (entry u max)

abbrev pub one_if : Bool → ℕ
one_if b = if b then 1 else 0

module _ (s : Socket) (v : IsPartition s) (u : Row) where
  pub shift-Kept :
      (max min : ℕ) → max ≢ min → max < 4 → min < 4 → Kept s (shift (core_counter s) u max min s)
  unfolding shift core_counter to_net_queue to_net_sys to_app to_blk
  shift-Kept zero min ne h k = ground arith
  shift-Kept (suc zero) min ne h k = ground arith
  shift-Kept (suc (suc zero)) min ne h k = ground arith
  shift-Kept (suc (suc (suc zero))) min ne h k = ground arith
  shift-Kept (suc (suc (suc (suc m)))) min ne h k = absurd (omega arith)

  abbrev pub Balance : (max min g : ℕ) → Type 0
  Balance max min g =
      entry (core_counter (shift (core_counter s) u max min s)) g
        + one_if (moves (core_counter s) u max min && g == min)
      ≡ entry (core_counter s) g + one_if (moves (core_counter s) u max min && g == max)

  shift_balances :
      (max min : ℕ)
      → max ≢ min
      → max < 4
      → min < 4
      → Balance max min 0 × Balance max min 1 × Balance max min 2 × Balance max min 3
  unfolding shift core_counter to_net_queue to_net_sys to_app to_blk
  shift_balances zero min ne h k = ground arith
  shift_balances (suc zero) min ne h k = ground arith
  shift_balances (suc (suc zero)) min ne h k = ground arith
  shift_balances (suc (suc (suc zero))) min ne h k = ground arith
  shift_balances (suc (suc (suc (suc m)))) min ne h k = absurd (omega arith)

  pub shift-Balance :
      (max min : ℕ) → max ≢ min → max < 4 → min < 4 → (g : ℕ) → g < 4 → Balance max min g
  shift-Balance max min ne h k zero l = (shift_balances max min ne h k).0
  shift-Balance max min ne h k (suc zero) l = (shift_balances max min ne h k).1
  shift-Balance max min ne h k (suc (suc zero)) l = (shift_balances max min ne h k).2
  shift-Balance max min ne h k (suc (suc (suc zero))) l = (shift_balances max min ne h k).3
  shift-Balance max min ne h k (suc (suc (suc (suc g)))) l = absurd (omega arith)

-- ===== src/Kernel/Sockets/Partition.antt =====
-- The boundaries of the modes CROSS and PER of simple_proc_ktimer/simple_proc.c.
use core_partitioning.Base.{ℕ, zero, suc, ◌+◌, ◌-◌, ◌≤◌, ◌≡◌, arith, Returns, Returns-bind}
use core_partitioning.Kernel.Util.{per_core}
use core_partitioning.Kernel.Sockets.{
  Socket, Averages, Pair, at, put, read, measure, measure_loop, adjust, adjust_blk, adjust_net,
  adjust_loop, number_of_sockets,
}

-- Each group has a core, and the net system call group has two at least.
pub record IsPartition (s : Socket) : Type 0 where
  pub net_some : s.net_start ≤ s.net_end
  pub sys_two : s.net_end + 3 ≤ s.blk_start
  pub blk_some : s.blk_start ≤ s.blk_end

pub record Kept (s s' : Socket) : Type 0 where
  pub partition : IsPartition s'
  pub first : s'.net_start ≡ s.net_start
  pub last : s'.blk_end ≡ s.blk_end
  pub near :
      (s'.net_end ≤ s.net_end + 1)
      × (s.net_end ≤ s'.net_end + 1)
      × (s'.blk_start ≤ s.blk_start + 1)
      × (s.blk_start ≤ s'.blk_start + 1)

pub adjust-Kept :
    (turn watched : ℕ) (a : Averages) (s : Socket)
    → IsPartition s
    → Kept s (adjust turn watched a s)
unfolding adjust adjust_blk adjust_net
adjust-Kept turn watched a s v = ground arith

-- Both sockets are partitioned, each within its ten cores.
pub record IsLayout (per : Pair Socket) : Type 0 where
  pub low : IsPartition per.low
  pub high : IsPartition per.high
  pub low_range : (per.low.net_start ≡ 0) × (per.low.blk_end ≡ 9)
  pub high_range : (per.high.net_start ≡ 10) × (per.high.blk_end ≡ 19)

module _ (turn : ℕ) (avgs : Pair Averages) (beyond : Averages) where
  adjust-at-IsLayout :
      (j i : ℕ) (per : Pair Socket)
      → IsLayout per
      → IsLayout (put per j (adjust turn (read avgs beyond i).blk (at avgs j) (at per j)))
  adjust-at-IsLayout zero i per l =
      omega (arith, l, adjust-Kept turn (read avgs beyond i).blk avgs.low per.low l.low)
  adjust-at-IsLayout (suc j) i per l =
      omega (arith, l, adjust-Kept turn (read avgs beyond i).blk avgs.high per.high l.high)

  pub adjust_loop-IsLayout :
      (rounds i : ℕ) (per : Pair Socket)
      → IsLayout per
      → IsLayout (adjust_loop turn avgs beyond rounds i per)
  unfolding adjust_loop
  adjust_loop-IsLayout zero i per l = l
  adjust_loop-IsLayout (suc rounds) i per l =
      adjust_loop-IsLayout rounds (i + 1) _ (adjust-at-IsLayout (number_of_sockets - i) i per l)

measure-total : (p : ℕ → ℕ) (s : Socket) → IsPartition s → Returns (λ _. Unit) (measure p s)
unfolding measure per_core
measure-total p s v = ground arith

pub IsPartition-at : (per : Pair Socket) → IsLayout per → (j : ℕ) → IsPartition (at per j)
IsPartition-at per l zero = l.low
IsPartition-at per l (suc j) = l.high

pub measure_loop-total :
    (p : ℕ → ℕ) (beyond : Averages) (per : Pair Socket)
    → IsLayout per
    → (rounds i : ℕ) (avgs : Pair Averages) (sum : ℕ)
    → Returns (λ _. Unit) (measure_loop p beyond per rounds i avgs sum)
unfolding measure_loop
measure_loop-total p beyond per l zero i avgs sum = tt
measure_loop-total p beyond per l (suc rounds) i avgs sum =
    Returns-bind (λ _. Unit {0}) (λ _. Unit {0}) _ _
      (measure-total p _ (IsPartition-at per l (number_of_sockets - i)))
      λ a _. measure_loop-total p beyond per l rounds (i + 1) _ _

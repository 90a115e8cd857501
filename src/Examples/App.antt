-- ===== src/Examples/App.antt =====
-- The APP mode at concrete loads.
use core_partitioning.Base.{
  ℕ, ◌+◌, ◌≡◌, ◌≢◌, ◌≤◌, ◌<◌, Returns, ltb, ◌==◌, ◌&&◌, if◌then◌else◌, arith,
}
use core_partitioning.Kernel.App.{
  Row, Adjusted, entry, core_counter, sort_index, adjust, tick, init,
}
use core_partitioning.Kernel.App.Sort.{IsOrder, sort_index-IsOrder}
use core_partitioning.Kernel.App.Partition.{moves, one_if}
use core_partitioning.Kernel.App.Ticks.{adjust-counts, AppTick, tick-AppTick, init-IsLayout}

abbrev busy_net : ℕ → ℕ
busy_net j = if ltb j 2 then 95 else 10

abbrev loads : Row
loads = record { net_queue = 95; net_sys = 40; app = 10; blk = 20 }

sort_index-IsOrder_example : IsOrder loads (sort_index loads)
sort_index-IsOrder_example = sort_index-IsOrder loads

abbrev adjusted : Adjusted
adjusted = adjust loads init.low

adjust-counts_example :
    ((h : ℕ) → h < 4 → entry loads h ≤ entry loads adjusted.max)
    × (adjusted.max ≢ adjusted.min)
    × ((h : ℕ)
        → h < 4
        → h ≢ adjusted.max
        → 2 ≤ entry (core_counter init.low) h
        → (2 ≤ entry (core_counter init.low) adjusted.min)
          × (entry loads adjusted.min ≤ entry loads h))
    × (entry (core_counter adjusted.socket) 0
          + one_if
              (moves (core_counter init.low) loads adjusted.max adjusted.min && 0 == adjusted.min)
        ≡ entry (core_counter init.low) 0
          + one_if
              (moves (core_counter init.low) loads adjusted.max adjusted.min && 0 == adjusted.max))
adjust-counts_example = adjust-counts init.low init-IsLayout.low loads 0 (omega arith)

tick-AppTick_example : Returns AppTick (tick busy_net init)
tick-AppTick_example = tick-AppTick busy_net init init-IsLayout

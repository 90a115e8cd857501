-- ===== src/Kernel/App/Choice.antt =====
-- Which groups simple_proc_ktimer/simple_proc.c lets exchange a core.
use core_partitioning.Base.{ℕ, ◌≤◌, ◌<◌, ◌≢◌, arith}
use core_partitioning.Kernel.App.{Row, entry, sort_index, max_group, min_group}
use core_partitioning.Kernel.App.Sort.{sort_index-IsOrder, sort_index-covers}

module _ (cores u : Row) where
  abbrev pub max_of : ℕ
  max_of = max_group (sort_index u)

  abbrev pub min_of : ℕ
  min_of = min_group cores (sort_index u)

  pub record Chosen : Type 0 where
    pub distinct : max_of ≢ min_of
    pub max_small : max_of < 4
    pub min_small : min_of < 4

  pub chosen : Chosen
  unfolding min_group
  chosen = let o = sort_index-IsOrder u in ground arith

  -- The group that receives a core is a most loaded one of the four, whatever the loads.
  pub entry-le-max : (g : ℕ) → g < 4 → entry u g ≤ entry u max_of
  entry-le-max g h = let o = sort_index-IsOrder u in ground (arith, sort_index-covers u g h)

  -- If some group other than the receiving one has two cores or more, then the giving group has two
  -- cores or more as well, and no higher load than that group.
  pub min-le-entry :
      (g : ℕ)
      → g < 4
      → g ≢ max_of
      → 2 ≤ entry cores g
      → (2 ≤ entry cores min_of) × (entry u min_of ≤ entry u g)
  unfolding min_group
  min-le-entry g h ne two = let o = sort_index-IsOrder u in ground (arith, sort_index-covers u g h)

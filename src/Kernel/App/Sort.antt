-- ===== src/Kernel/App/Sort.antt =====
-- The bubble sort of the group indices in simple_proc_ktimer/simple_proc.c.
use core_partitioning.Base.{ℕ, zero, suc, ◌≤◌, ◌<◌, ◌≡◌, ◌≢◌, ◌⊎◌, arith, get_or, List}
use core_partitioning.Kernel.App.{Row, entry, compare_at, inner, outer, sort_index}

-- The order that the sort leaves: four places that hold the four groups, loads not falling.
pub record IsOrder (u : Row) (o : List ℕ) : Type 0 where
  pub up0 : entry u (get_or o 0 0) ≤ entry u (get_or o 1 0)
  pub up1 : entry u (get_or o 1 0) ≤ entry u (get_or o 2 0)
  pub up2 : entry u (get_or o 2 0) ≤ entry u (get_or o 3 0)
  pub last0 : get_or o 3 0 ≢ get_or o 0 0
  pub last1 : get_or o 3 0 ≢ get_or o 1 0
  pub last2 : get_or o 3 0 ≢ get_or o 2 0
  pub small : (get_or o 0 0 < 4) × (get_or o 1 0 < 4) × (get_or o 2 0 < 4) × (get_or o 3 0 < 4)

module _ (u : Row) where
  sort_index-sorted :
      (entry u (get_or (sort_index u) 0 0) ≤ entry u (get_or (sort_index u) 1 0))
      × (entry u (get_or (sort_index u) 1 0) ≤ entry u (get_or (sort_index u) 2 0))
      × (entry u (get_or (sort_index u) 2 0) ≤ entry u (get_or (sort_index u) 3 0))
  unfolding sort_index outer inner compare_at
  sort_index-sorted = ground arith

  sort_index-last :
      (get_or (sort_index u) 3 0 ≢ get_or (sort_index u) 0 0)
      × (get_or (sort_index u) 3 0 ≢ get_or (sort_index u) 1 0)
      × (get_or (sort_index u) 3 0 ≢ get_or (sort_index u) 2 0)
  unfolding sort_index outer inner compare_at
  sort_index-last = ground arith

  sort_index-small :
      (get_or (sort_index u) 0 0 < 4)
      × (get_or (sort_index u) 1 0 < 4)
      × (get_or (sort_index u) 2 0 < 4)
      × (get_or (sort_index u) 3 0 < 4)
  unfolding sort_index outer inner compare_at
  sort_index-small = ground arith

  -- Whatever the loads, the sort leaves four group indices with loads that do not fall from one place
  -- to the next, the last of them different from the other three.
  pub sort_index-IsOrder : IsOrder u (sort_index u)
  sort_index-IsOrder = omega (arith, sort_index-sorted, sort_index-last, sort_index-small)

  -- The sort leaves each of the four groups in one of the four places.
  pub sort_index-covers :
      (g : ℕ)
      → g < 4
      → (g ≡ get_or (sort_index u) 0 0)
        ⊎ (g ≡ get_or (sort_index u) 1 0)
        ⊎ (g ≡ get_or (sort_index u) 2 0)
        ⊎ (g ≡ get_or (sort_index u) 3 0)
  unfolding sort_index outer inner compare_at
  sort_index-covers zero h = ground arith
  sort_index-covers (suc zero) h = ground arith
  sort_index-covers (suc (suc zero)) h = ground arith
  sort_index-covers (suc (suc (suc zero))) h = ground arith
  sort_index-covers (suc (suc (suc (suc g)))) h = absurd (omega arith)

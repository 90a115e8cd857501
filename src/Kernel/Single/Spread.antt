-- ===== src/Kernel/Single/Spread.antt =====
-- The affinity hints of the SINGLE mode of simple_proc_ktimer/simple_proc.c: which core each queue
-- is given.
use core_partitioning.Base.{
  ℕ, zero, suc, ◌+◌, ◌%◌, ◌≤◌, ◌<◌, ◌≡◌, refl, some, arith, length, get_elem?, All,
}
use core_partitioning.Kernel.Util.{Queue, Hint, Counts}
use core_partitioning.Kernel.Single.{spread}

-- The hint names the group's queue and one of its cores.
pub record Within (q : Queue) (first cores : ℕ) (h : Hint) : Type 0 where
  pub queue : h.queue ≡ q
  pub above : first ≤ h.core
  pub below : h.core < first + cores

module _ (q : Queue) (cores first : ℕ) where
  pub length-spread : (n j : ℕ) → length (spread q cores first n j) ≡ n
  unfolding spread
  length-spread zero j = refl
  length-spread (suc n) j = omega (arith, length-spread n (j + 1))

  pub spread-Counts : (n j : ℕ) → Counts j (spread q cores first n j)
  unfolding spread
  spread-Counts zero j = tt
  spread-Counts (suc n) j = (refl, spread-Counts n (j + 1))

  pub spread-Within : 0 < cores → (n j : ℕ) → All (Within q first cores) (spread q cores first n j)
  unfolding spread
  spread-Within h zero j = tt
  spread-Within h (suc n) j =
      (record { queue = refl; above = omega arith; below = grind arith }, spread-Within h n (j + 1))

  pub get_elem?-spread :
      (n j i : ℕ)
      → i < n
      → get_elem? (spread q cores first n j) i
        ≡ some (record { queue = q; index = j + i; core = (j + i) % cores + first })
  unfolding spread
  get_elem?-spread zero j i h = absurd (omega arith)
  get_elem?-spread (suc n) j zero h = ground arith
  get_elem?-spread (suc n) j (suc i) h = ground (arith, get_elem?-spread n (j + 1) i)

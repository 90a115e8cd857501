-- ===== src/Preload/Place/Cycle.antt =====
-- The cores that the threads of ld_preload.c go round.
use core_partitioning.Base.{
  ℕ, zero, suc, ◌+◌, ◌-◌, ◌%◌, ◌≤◌, ◌<◌, ◌≡◌, ap, ◌∙◌, some, List, [], ◌∷◌, arith, length, All,
  get_elem?,
}
use core_partitioning.Kernel.Util.{max_cpus}
use core_partitioning.Preload.Place.{
  rr, rr2, Starting, syscall_thread, select_thread, stat_thread, next_cpu, place,
}

-- `n` threads of `syscall_thread`.
abbrev pub threads : ℕ → List Starting
threads zero = []
threads (suc n) = syscall_thread ∷ threads n

rr-place :
    (n k c : ℕ)
    → k < n
    → 2 ≤ c
    → c ≤ 10
    → get_elem? (place rr (threads n) c) k ≡ some (2 + (c - 1 + k) % 9)
unfolding place next_cpu
rr-place zero k c lt low high = absurd (omega arith)
rr-place (suc n) zero c lt low high = ap some (ground arith)
rr-place (suc n) (suc k) c lt low high =
    rr-place n k (next_cpu rr syscall_thread c) (omega arith) (ground arith) (ground arith)
    ∙ ap some (ground arith)

rr2-place :
    (ks : List Starting) (k c : ℕ)
    → k < length ks
    → 11 ≤ c
    → c ≤ 20
    → get_elem? (place rr2 ks c) k ≡ some (11 + (c - 10 + k) % 10)
unfolding place next_cpu
rr2-place [] k c lt low high = absurd (omega arith)
rr2-place (s ∷ ks) zero c lt low high = ap some (ground arith)
rr2-place (s ∷ ks) (suc k) c lt low high =
    rr2-place ks k (next_cpu rr2 s c) (omega arith) (ground arith) (ground arith)
    ∙ ap some (ground arith)

-- The cores of any threads, whatever the functions.
rr_range : (ks : List Starting) (c : ℕ) → c ≤ 10 → All (λ x. (1 ≤ x) × (x ≤ 10)) (place rr ks c)
unfolding place next_cpu
rr_range [] c h = tt
rr_range (syscall_thread ∷ ks) c h = (ground arith, rr_range ks _ (ground arith))
rr_range (select_thread ∷ ks) c h = (ground arith, rr_range ks _ (ground arith))
rr_range (stat_thread ∷ ks) c h = (ground arith, rr_range ks _ (ground arith))

-- With `__RR__`, from a `cpu` of 2 to 10, threads of `syscall_thread` go round the cores 2 to 10, and any
-- threads, whatever their functions and from any `cpu` of 10 or less, stay on the cores 1 to 10. With `__RR2__`, from a `cpu` of 11 to 20, any ten
-- threads in a row go round the cores 11 to 20, so that one of them asks for core 20, which a machine of
-- MAX_CPUS cores does not have.
pub place_cycles :
    (n k c : ℕ)
    → k < n
    → 2 ≤ c
    → c ≤ 10
    → (js : List Starting) (c1 : ℕ) → c1 ≤ 10
    → (ks : List Starting) (c2 : ℕ) → length ks ≡ 10
    → 11 ≤ c2
    → c2 ≤ 20
    → (get_elem? (place rr (threads n) c) k ≡ some (2 + (c - 1 + k) % 9))
      × All (λ x. (1 ≤ x) × (x ≤ 10)) (place rr js c1)
      × ((i : ℕ) → i < 10 → get_elem? (place rr2 ks c2) i ≡ some (11 + (c2 - 10 + i) % 10))
      × (i : ℕ) × (i < 10)
      × (get_elem? (place rr2 ks c2) i ≡ some max_cpus)
place_cycles n k c lt low high js c1 small ks c2 ten low2 high2 = (
  rr-place n k c lt low high,
  rr_range js c1 small,
  λ i h. rr2-place ks i c2 (omega (arith, ten)) low2 high2,
  (39 - c2) % 10,
  omega arith,
  rr2-place ks ((39 - c2) % 10) c2 (omega (arith, ten)) low2 high2 ∙ ap some (omega arith),
)

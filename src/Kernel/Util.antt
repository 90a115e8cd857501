-- ===== src/Kernel/Util.antt =====
-- What the modes of `kerneltimer_timeover` in simple_proc_ktimer/simple_proc.c share: the loops
-- that add up the load of a range of cores, the division by a number of cores, and the affinity
-- hints that a tick gives.
use core_partitioning.Base.{
  ℕ, sym, zero, suc, ◌+◌, ◌-◌, ◌/◌, ◌≤◌, ◌<◌, ◌≡◌, Option, none, some, arith, ◌==◌, if◌then◌else◌,
  List, [], ◌∷◌,
}
use native.Mathlib.Nat.{zero-add, suc-add}

abbrev pub max_cpus : ℕ
max_cpus = 20

abbrev pub t_high : ℕ
t_high = 70

abbrev pub t_low : ℕ
t_low = 30

abbrev pub blk_queues : ℕ
blk_queues = 20

abbrev pub net_queues : ℕ
net_queues = 8

-- `for (j = first; ...; j++) util += p_dynamic[j];`, as many rounds as the range has cores.
pub add_load : (ℕ → ℕ) → ℕ → ℕ → ℕ → ℕ
add_load p zero j acc = acc
add_load p (suc rounds) j acc = add_load p rounds (j + 1) (acc + p j)

-- `j <= last` from `first`.
unfoldable pub load : (ℕ → ℕ) → ℕ → ℕ → ℕ
load p first last = add_load p (last + 1 - first) first 0

-- A division by a number of cores. Zero is a divide error; so is, here, a count that would be
-- negative in C, since `-` stops at 0.
unfoldable pub per_core : ℕ → ℕ → Option ℕ
per_core util cores = if cores == 0 then none else some (util / cores)

pub data Queue : Type 0 where
  blk : Queue
  net : Queue

-- One call `irq_set_affinity_hint(irq_blk[index], {core})`, or with `irq_net`.
pub record Hint : Type 0 where
  pub queue : Queue
  pub index : ℕ
  pub core : ℕ

-- The hints are for the queues `j`, `j + 1`, and so on, one for each.
abbrev pub Counts : ℕ → List Hint → Type 0
Counts j [] = Unit {0}
Counts j (h ∷ hs) = (h.index ≡ j) × Counts (j + 1) hs

pub per_core_pos : (util cores : ℕ) → 0 < cores → per_core util cores ≡ some (util / cores)
unfolding per_core
per_core_pos util cores h = ground arith

add_load-acc : (p : ℕ → ℕ) (n j acc : ℕ) → add_load p n j acc ≡ acc + add_load p n j 0
unfolding add_load
add_load-acc p zero j acc = omega arith
add_load-acc p (suc n) j acc =
    omega (arith, add_load-acc p n (j + 1) (acc + p j), add_load-acc p n (j + 1) (0 + p j))

add_load-append :
    (p : ℕ → ℕ) (m n j k : ℕ)
    → j + m ≡ k
    → add_load p (m + n) j 0 ≡ add_load p m j 0 + add_load p n k 0
unfolding add_load
add_load-append p zero n j k e = let f : j ≡ k = omega arith in rw (f, zero-add) (omega arith)
add_load-append p (suc m) n j k e = rw suc-add (
    omega (
      arith,
      add_load-acc p (m + n) (j + 1) (0 + p j),
      add_load-acc p m (j + 1) (0 + p j),
      add_load-append p m n (j + 1) k (omega arith),
    ))

-- The load of a range is the load of its two parts.
pub load-split :
    (p : ℕ → ℕ) (a m b : ℕ) → a ≤ m + 1 → m ≤ b → load p a m + load p (m + 1) b ≡ load p a b
unfolding load
load-split p a m b h k =
    let e : b + 1 - a ≡ (m + 1 - a) + (b + 1 - (m + 1)) = omega arith in
    rw e (sym (add_load-append p (m + 1 - a) (b + 1 - (m + 1)) a (m + 1) (omega arith)))

-- ===== src/Kernel/Walk.antt =====
-- The loop of simple_proc_ktimer/simple_proc.c that deals the queues out to the cores of several
-- sockets in turn (modes CROSS, PER and APP): `k` is the socket counted from the last one, `i` the
-- distance from the first core of its group.
use core_partitioning.Base.{
  ℕ, zero, suc, ◌+◌, ◌%◌, ◌≤◌, ◌<◌, ◌≡◌, refl, Bool, List, [], ◌∷◌, arith, length, All, ◌==◌,
  if◌then◌else◌, Bool-cases, inl, inr,
}
use native.Mathlib.Nat.{mod-lt}
use core_partitioning.Kernel.Util.{Queue, Hint, Counts}

-- `first` is the first core of the group on a socket, `ends` the source's test for its last core.
unfoldable pub walk :
    Queue → (first : ℕ → ℕ) (ends : ℕ → ℕ → Bool) (sockets rounds j k i : ℕ) → List Hint
walk q first ends sockets zero j k i = []
walk q first ends sockets (suc rounds) j k i =
    (record { queue = q; index = j; core = first k + i })
    ∷ walk q first ends sockets rounds (j + 1) (if ends k i then (k + 1) % sockets else k)
        (if ends k i then 0 else i + 1)

module _ (q : Queue) (first last : ℕ → ℕ) (sockets : ℕ) where
  pub length-walk :
      (ends : ℕ → ℕ → Bool) (n j k i : ℕ) → length (walk q first ends sockets n j k i) ≡ n
  unfolding walk
  length-walk ends zero j k i = refl
  length-walk ends (suc n) j k i = omega (
    arith,
    length-walk ends n (j + 1) (if ends k i then (k + 1) % sockets else k)
        (if ends k i then 0 else i + 1),
  )

  pub walk-Counts :
      (ends : ℕ → ℕ → Bool) (n j k i : ℕ) → Counts j (walk q first ends sockets n j k i)
  unfolding walk
  walk-Counts ends zero j k i = tt
  walk-Counts ends (suc n) j k i = (
    refl,
    walk-Counts ends n (j + 1) (if ends k i then (k + 1) % sockets else k)
        (if ends k i then 0 else i + 1),
  )

  -- The hinted core lies in the group of one of the sockets.
  pub record OnSocket (h : Hint) : Type 0 where
    pub queue : h.queue ≡ q
    pub socket : ℕ
    pub in_use : socket < sockets
    pub above : first socket ≤ h.core
    pub below : h.core ≤ last socket

  abbrev pub at_last : ℕ → ℕ → Bool
  at_last k i = first k + i == last k

  pub walk-OnSocket :
      0 < sockets
      → ((k : ℕ) → first k ≤ last k)
      → (n j k i : ℕ) → k < sockets
      → first k + i ≤ last k
      → All OnSocket (walk q first at_last sockets n j k i)
  unfolding walk
  walk-OnSocket pos some zero j k i used here = tt
  walk-OnSocket pos some (suc n) j k i used here = (
    record { queue = refl; socket = k; in_use = used; above = omega arith; below = here },
    elim (Bool-cases (at_last k i)) [
      | inl e ↦ rw e (
          walk-OnSocket pos some n (j + 1) ((k + 1) % sockets) 0 (mod-lt _ pos)
            (omega (arith, some ((k + 1) % sockets))))
      | inr e ↦ rw e (walk-OnSocket pos some n (j + 1) k (i + 1) used (ground arith))
    ],
  )

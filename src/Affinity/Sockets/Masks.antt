-- ===== src/Affinity/Sockets/Masks.antt =====
-- The cores that affinity.c gives to system call threads with CROSS and with PER, and the groups of
-- the kernel module.
use core_partitioning.Base.{
  some, Returns, get_elem?, lt→ltb, ℕ, zero, suc, ◌+◌, ◌-◌, ◌/◌, ◌^◌, ◌<◌, ◌≡◌, ◌≢◌, ◌⊎◌, inl, inr,
  refl, ap, append_empty, List, [], ◌∷◌, ◌++◌, length, arith, All, ne→==, ℕ_discrete,
}
use core_partitioning.Kernel.Util.{max_cpus}
use core_partitioning.Kernel.Sockets.{Sockets, Socket, Pair, at, number_of_sockets}
use core_partitioning.Kernel.Sockets.Partition.{IsPartition, IsLayout}
use core_partitioning.Kernel.Sockets.Ticks.{IsState}
use core_partitioning.Affinity.Cores.{Group, cpu_set-Group, length-cpu_set, get_elem?-cpu_set}
use core_partitioning.Affinity.Lines.{socket_lines, show_stat_cross, show_stat_per}
use core_partitioning.Affinity.Lines.RoundTrip.{read_lines-lines}
use core_partitioning.Affinity.Sockets.{
  cores_per_socket, cross_group, cross_mask, set_cpu_cross, set_cpu_per,
}

-- All boundaries are small.
small :
    (per : Pair Socket)
    → IsLayout per
    → All (λ n. n < 10 ^ 7) (socket_lines per.low (socket_lines per.high []))
small per v = ground (arith, v.low, v.low_range, v.high, v.high_range)

-- The mask holds the cores from `first` to `last` of the high socket and, if both take part, those
-- of the low socket after them.
abbrev pub OnSockets : (first last : Socket → ℕ) → Sockets → List ℕ → Type 0
OnSockets first last s mask =
    (high : List ℕ) × (low : List ℕ) × (mask ≡ high ++ low)
    × Group (first s.per.high) (last s.per.high) high
    × (((s.socket_number ≡ 1) × (low ≡ []))
        ⊎ ((s.socket_number ≡ 2) × Group (first s.per.low) (last s.per.low) low))

-- The loop over the sockets that take part.
cross_mask-OnSockets :
    (kind : ℕ) (first last : Socket → ℕ) (s : Sockets)
    → IsState s
    → ((c : Socket) → IsPartition c → Group (first c) (last c) (cross_group kind c))
    → OnSockets first last s (cross_mask kind s.per s.socket_number 1)
unfolding cross_mask
cross_mask-OnSockets kind first last s v each = elim (ℕ_discrete s.socket_number 1) [
  | yes e ↦
      (cross_group kind s.per.high, [], rw e refl, each s.per.high v.layout.high, inl (e, refl))
  | no ne ↦
      let e : s.socket_number ≡ 2 = omega (arith, v.sockets) in
      (
        cross_group kind s.per.high,
        cross_group kind s.per.low,
        rw e (
            ap (λ low. cross_group kind s.per.high ++ low)
              (append_empty (cross_group kind s.per.low))),
        each s.per.high v.layout.high,
        inr (e, each s.per.low v.layout.low),
      )
]

-- From the proc file that the kernel module prints in CROSS mode, `set_cpu` gives a network thread
-- the system call cores, and a file thread the block cores, of exactly the sockets that take part.
pub set_cpu_cross-OnSockets :
    (s : Sockets)
    → IsState s
    → (kind : ℕ) → kind ≢ 0
    → OnSockets (λ c. c.net_end + 1) (λ c. c.blk_start - 1) s (set_cpu_cross 0 (show_stat_cross s))
      × OnSockets (λ c. c.blk_start) (λ c. c.blk_end) s (set_cpu_cross kind (show_stat_cross s))
unfolding set_cpu_cross show_stat_cross
set_cpu_cross-OnSockets s v kind ne =
    let e =
      read_lines-lines 8 (s.socket_number ∷ socket_lines s.per.low (socket_lines s.per.high []))
        (omega arith) (omega (arith, v.sockets), small s.per v.layout) in
    rw e (
      cross_mask-OnSockets 0 (λ c. c.net_end + 1) (λ c. c.blk_start - 1) s v
          (λ c p.
            cpu_set-Group (c.blk_start - (c.net_end + 1)) (c.net_end + 1) (c.blk_start - 1)
              (omega (arith, p))),
      cross_mask-OnSockets kind (λ c. c.blk_start) (λ c. c.blk_end) s v
          (λ c p.
            rw (ne→== kind 0 ne) (
              cpu_set-Group (c.blk_end + 1 - c.blk_start) c.blk_start c.blk_end
                (omega (arith, p)))),
    )

at-IsPartition : (per : Pair Socket) → IsLayout per → (k : ℕ) → IsPartition (at per k)
at-IsPartition per v zero = v.low
at-IsPartition per v (suc k) = v.high

-- From the proc file that the kernel module prints in PER mode, and with the running core one of
-- the 20 of the two sockets, `set_cpu` gives a network thread the system call cores of the running
-- core's socket, but a file thread gets the block cores from the first on, in order, without the
-- last one: none if the group has one core.
pub set_cpu_per-Group :
    (s : Sockets)
    → IsState s
    → (kind core : ℕ) → kind ≢ 0
    → core < max_cpus
    → let c = at s.per (core / cores_per_socket) in
      Returns (Group (c.net_end + 1) (c.blk_start - 1)) (set_cpu_per 0 core (show_stat_per s))
      × Returns
          (λ mask.
            (length mask + c.blk_start ≡ c.blk_end)
            × ((i : ℕ) → c.blk_start + i < c.blk_end → get_elem? mask i ≡ some (c.blk_start + i)))
          (set_cpu_per kind core (show_stat_per s))
unfolding set_cpu_per show_stat_per
set_cpu_per-Group s v kind core ne here =
    let e =
      read_lines-lines 8 (socket_lines s.per.low (socket_lines s.per.high [])) (omega arith)
        (small s.per v.layout) in
    let c = at s.per (core / cores_per_socket) in
    let p : IsPartition c = at-IsPartition s.per v.layout (core / cores_per_socket) in
    let within : core / cores_per_socket < number_of_sockets = omega (arith, here) in
    rw (e, ne→== kind 0 ne, lt→ltb (core / cores_per_socket) number_of_sockets within)
      (
        cpu_set-Group (c.blk_start - (c.net_end + 1)) (c.net_end + 1) (c.blk_start - 1)
            (omega (arith, p)),
        (
          omega (arith, p, length-cpu_set (c.blk_end - c.blk_start) c.blk_start),
          λ i h. get_elem?-cpu_set (c.blk_end - c.blk_start) c.blk_start i (omega (arith, h)),
        ),
      )

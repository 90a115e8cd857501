-- ===== src/Affinity/Sockets.antt =====
-- `set_cpu` of affinity.c with CROSS and with PER, and `__FILEIO__`. Neither compiles as it stands: the
-- stray word `X_CPUS` of the former is left out, and `current_core` of the latter is taken to be
-- `currnet_core`, the running core.
pub mod Masks
use core_partitioning.Base.{
  Option, some, none, ltb, ℕ, zero, suc, ◌+◌, ◌-◌, ◌/◌, List, [], ◌∷◌, ◌++◌, get_or, ◌==◌,
  if◌then◌else◌,
}
use core_partitioning.Kernel.Sockets.{Socket, Pair, at, number_of_sockets}
use core_partitioning.Affinity.{cpu_set}
use core_partitioning.Affinity.Lines.{read_lines}

abbrev pub cores_per_socket : ℕ
cores_per_socket = 10

-- The four numbers of a socket, from number `i` on.
abbrev pub socket_at : List ℕ → ℕ → Socket
socket_at ns i = record {
  net_start = get_or ns i 0;
  net_end = get_or ns (1 + i) 0;
  blk_start = get_or ns (2 + i) 0;
  blk_end = get_or ns (3 + i) 0;
}

abbrev pub sockets_at : List ℕ → ℕ → Pair Socket
sockets_at ns i = record { low = socket_at ns i; high = socket_at ns (4 + i) }

-- `for (n = net_end + 1; n < blk_start; n++)`, and `for (n = blk_start; n <= blk_end; n++)`.
abbrev pub cross_group : (net_or_file : ℕ) → Socket → List ℕ
cross_group kind s =
    if kind == 0
    then cpu_set (s.blk_start - (s.net_end + 1)) (s.net_end + 1)
    else cpu_set (s.blk_end + 1 - s.blk_start) s.blk_start

-- `for (i = 1; i <= soc_num; i++) { k = NUMBER_OF_SOCKETS - i; ... }`.
unfoldable pub cross_mask : (net_or_file : ℕ) → Pair Socket → (rounds i : ℕ) → List ℕ
cross_mask kind per zero i = []
cross_mask kind per (suc rounds) i =
    cross_group kind (at per (number_of_sockets - i)) ++ cross_mask kind per rounds (i + 1)

unfoldable pub set_cpu_cross : (net_or_file : ℕ) → (dynamic : List ℕ) → List ℕ
set_cpu_cross kind dynamic =
    let ns = read_lines 8 9 dynamic in cross_mask kind (sockets_at ns 1) (get_or ns 0 0) 1

-- With PER the cores are those of the running core's socket, and the loop for files ends before
-- `blk_end`.
abbrev pub per_mask : (net_or_file : ℕ) → Socket → List ℕ
per_mask kind s =
    if kind == 0
    then cpu_set (s.blk_start - (s.net_end + 1)) (s.net_end + 1)
    else cpu_set (s.blk_end - s.blk_start) s.blk_start

-- A core past the second socket's is an index out of the arrays.
unfoldable pub set_cpu_per : (net_or_file core : ℕ) → (dynamic : List ℕ) → Option (List ℕ)
set_cpu_per kind core dynamic =
    let ns = read_lines 8 8 dynamic in
    let socket = core / cores_per_socket in
    if ltb socket number_of_sockets
    then some (per_mask kind (at (sockets_at ns 0) socket))
    else none

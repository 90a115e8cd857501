-- ===== src/Kernel/App/Groups.antt =====
-- The groups of cores of a socket in the APP mode of simple_proc_ktimer/simple_proc.c: their sizes,
-- their loads, and the sort by which the groups to give and to receive a core are chosen.
use core_partitioning.Base.{
  ℕ, zero, suc, ◌+◌, ◌-◌, Option, some, List, [], ◌∷◌, ltb, leb, if◌then◌else◌, ◌>>=◌, get_or, set,
}
use core_partitioning.Kernel.Util.{add_load, per_core}

abbrev pub t_change : ℕ
t_change = 20

abbrev pub number_of_sockets : ℕ
number_of_sockets = 2

-- NET_QUEUE_INDEX, NET_SYS_INDEX, APP_INDEX, BLK_INDEX
abbrev pub net_queue_index : ℕ
net_queue_index = 0

abbrev pub net_sys_index : ℕ
net_sys_index = 1

abbrev pub app_index : ℕ
app_index = 2

abbrev pub blk_index : ℕ
blk_index = 3

-- The six entries for one socket of `net_start_per` and the arrays beside it.
pub record Socket : Type 0 where
  pub net_start : ℕ
  pub net_end : ℕ
  pub app_start : ℕ
  pub app_end : ℕ
  pub blk_start : ℕ
  pub blk_end : ℕ

-- A row of `util_arr` or `core_counter`.
pub record Row : Type 0 where
  pub net_queue : ℕ
  pub net_sys : ℕ
  pub app : ℕ
  pub blk : ℕ

abbrev pub entry : Row → ℕ → ℕ
entry r zero = r.net_queue
entry r (suc zero) = r.net_sys
entry r (suc (suc zero)) = r.app
entry r (suc (suc (suc _))) = r.blk

-- How many rounds the four loops make.
unfoldable pub core_counter : Socket → Row
core_counter s = record {
  net_queue = s.net_end + 1 - s.net_start;
  net_sys = s.app_start - (s.net_end + 1);
  app = s.app_end + 1 - s.app_start;
  blk = s.blk_end + 1 - s.blk_start;
}

-- The averages; a group with no core is a divide error.
unfoldable pub util_row : (p_dynamic : ℕ → ℕ) → Socket → Option Row
util_row p s = do
  let cores = core_counter s
  b ← per_core (add_load p cores.blk s.blk_start 0) cores.blk
  q ← per_core (add_load p cores.net_queue s.net_start 0) cores.net_queue
  n ← per_core (add_load p cores.net_sys (s.net_end + 1) 0) cores.net_sys
  a ← per_core (add_load p cores.app s.app_start 0) cores.app
  some (record { net_queue = q; net_sys = n; app = a; blk = b })

-- One comparison of the bubble sort of `sort_index_arr`.
unfoldable pub compare_at : Row → ℕ → List ℕ → List ℕ
compare_at util j xs =
    let a = get_or xs j 0 in
    let b = get_or xs (j + 1) 0 in
    if ltb (entry util b) (entry util a) then set (set xs j b) (j + 1) a else xs

unfoldable pub inner : Row → (rounds j : ℕ) → List ℕ → List ℕ
inner util zero j xs = xs
inner util (suc rounds) j xs = inner util rounds (j + 1) (compare_at util j xs)

unfoldable pub outer : Row → (rounds i : ℕ) → List ℕ → List ℕ
outer util zero i xs = xs
outer util (suc rounds) i xs = outer util rounds (i + 1) (inner util (3 - i) 0 xs)

unfoldable pub sort_index : Row → List ℕ
sort_index util = outer util 3 0 (0 ∷ 1 ∷ 2 ∷ 3 ∷ [])

abbrev pub max_group : List ℕ → ℕ
max_group order = get_or order 3 0

-- The least loaded group, or else the next one but the last that has two cores.
unfoldable pub min_group : Row → List ℕ → ℕ
min_group cores order =
    let first = get_or order 0 0 in
    if ltb (entry cores first) 2
    then (if leb 2 (entry cores (get_or order 1 0))
        then get_or order 1 0
        else if leb 2 (entry cores (get_or order 2 0))
        then get_or order 2 0
        else first)
    else first

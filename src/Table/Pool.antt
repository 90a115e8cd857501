-- ===== src/Table/Pool.antt =====
-- The pool of fdtable.c, with `__POOL__`: entries that are not in use, in a list of their own between two
-- nodes on the heap of the table. The code does not compile as it stands: the stray semicolon in the
-- call of `pthread_rwlock_init` is left out. `pool_thr_num`, which is set to 0 and used nowhere, is left
-- out too.
pub mod Shape
pub mod Take
pub mod Give
pub mod Cycle
use core_partitioning.Base.{
  ℕ, zero, suc, ◌-◌, ℤ, pos, negsuc, Bool, true, false, not, ◌&&◌, ◌==◌, ◌!=◌, if◌then◌else◌,
}
use core_partitioning.Table.{
  Ptr, null, ThreadInfo, Table, Run, ok, exit, fault, out_of_fuel, update, header_fd, end_node,
  load, get_next, get_prev, set_next, set_prev, get_header, sub_thr_num, get_by_fd_all, ◌>>=◌, ◌>>◌,
  pure,
}
use core_partitioning.Table.Fields.{set_fields}
use core_partitioning.Table.Fork.{free_from}

-- The two nodes from `calloc`; both get descriptor -10.
abbrev pub empty_pool : (pool_header pool_tail : Ptr) → Table → Table
empty_pool h l t = record t {
  live = update (update t.live h true) l true;
  cell = update (update t.cell h (end_node header_fd)) l (end_node header_fd);
  next = update (update t.next h l) l null;
  prev = update (update t.prev h l) l h;
}

unfoldable pub init_pool : (rwlock_ok : Bool) → (pool_header pool_tail : Ptr) → Table → Run ℤ
init_pool rwlock_ok h l t =
    if not rwlock_ok
    then exit
    else if h == null
    then ok (negsuc 0) t
    else if l == null
    then ok (negsuc 0) t
    else ok (pos 0) (empty_pool h l t)

-- `fdtable_destroy_pool`.
unfoldable pub destroy_pool : (pool_header : Ptr) (fuel : ℕ) → Table → Run (Unit {0})
destroy_pool pool_header fuel = free_from fuel pool_header

-- What `fdtable_to_pool` does with an entry whose links are not NULL.
unfoldable pub put_in : (pool_header tmp next_node prev_node : Ptr) → Table → Run (Unit {0})
put_in pool_header tmp next_node prev_node = do
  set_next prev_node next_node
  set_prev next_node prev_node
  first ← get_next pool_header
  set_next tmp first
  next ← get_next tmp
  set_prev next tmp
  set_prev tmp pool_header
  set_next pool_header tmp
  sub_thr_num

-- `fdtable_to_pool`, which returns no value.
unfoldable pub to_pool : (pool_header : Ptr) (fuel : ℕ) → (fd : ℤ) → Table → Run (Unit {0})
to_pool pool_header fuel fd = do
  tmp ← get_by_fd_all fuel fd
  if tmp == null then pure tt else (do
    set_fields tmp (λ n. record n { thr_fd = negsuc 0 })
    next_node ← get_next tmp
    prev_node ← get_prev tmp
    if next_node != null && prev_node != null
        then put_in pool_header tmp next_node prev_node
        else (λ _. exit))

-- What `fdtable_from_pool` does with the first entry of the pool.
unfoldable pub take_out : (pool_header tmp : Ptr) → Table → Run Ptr
take_out pool_header tmp = do
  after ← get_next tmp
  set_next pool_header after
  next ← get_next tmp
  set_prev next pool_header
  header ← get_header
  set_prev tmp header
  first ← get_next header
  set_next tmp first
  set_next header tmp
  next' ← get_next tmp
  set_prev next' tmp
  pure tmp

-- `fdtable_from_pool`; the count of entries stays.
unfoldable pub from_pool : (pool_header pool_tail : Ptr) → Table → Run Ptr
from_pool pool_header pool_tail = do
  tmp ← get_next pool_header
  if tmp == pool_tail then pure null else take_out pool_header tmp

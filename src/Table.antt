-- ===== src/Table.antt =====
-- fdtable.c: the table of intercepted descriptors, a doubly linked list of `thread_info` nodes
-- between a header and a tail node, on an explicit heap.
mod Memory
unfoldable pub use Memory.*
pub mod Chain
pub mod Lookup
pub mod Add
pub mod Delete
pub mod Fields
pub mod Fork
pub mod Traversal
pub mod Pool
use core_partitioning.Base.{
  ℕ, zero, suc, ◌+◌, ◌-◌, ◌%◌, ◌^◌, Bool, true, false, not, ◌&&◌, ◌||◌, ◌==◌, ◌!=◌, if◌then◌else◌,
  ℤ, pos, negsuc, ◌==ℤ◌,
}

-- `thr_fd != -11 && thr_fd != NULL`: descriptor 0 ends the loop as the tail does.
abbrev pub goes_on : ℤ → Bool
goes_on fd = not (fd ==ℤ tail_fd) && not (fd ==ℤ pos 0)

-- The loop of the three look-ups.
unfoldable pub search : (ThreadInfo → Bool) → (fuel : ℕ) → Ptr → Table → Run Ptr
search test zero p t = out_of_fuel
search test (suc fuel) p t =
    (load p >>= λ n.
    if goes_on n.thr_fd
    then (if test n then pure p else (get_next p >>= λ q. search test fuel q))
    else pure null)
      t

unfoldable pub search_table : (ThreadInfo → Bool) → (fuel : ℕ) → Table → Run Ptr
search_table test fuel = do h ← get_header; tmp ← get_next h; search test fuel tmp

unfoldable pub get_by_fd_all : (fuel : ℕ) → (fd : ℤ) → Table → Run Ptr
get_by_fd_all fuel fd = search_table (λ n. n.thr_fd ==ℤ fd) fuel

-- The variant with `__FILEIO__`.
unfoldable pub get_by_fd : (fuel : ℕ) → (fd : ℤ) (net_or_file : ℕ) → Table → Run Ptr
get_by_fd fuel fd kind = search_table (λ n. n.thr_fd ==ℤ fd && n.net_or_file == kind) fuel

unfoldable pub get_by_tid : (fuel : ℕ) → (pthread : ℕ) → Table → Run Ptr
get_by_tid fuel pthread = search_table (λ n. n.p_thread == pthread) fuel

-- What `fdtable_add` gets from the system: `calloc` and `malloc` (0 is NULL), whether the first
-- `sem_init` succeeds, and `getpid`.
pub record AddEnv : Type 0 where
  pub node : Ptr
  pub message : Ptr
  pub sem_init_ok : Bool
  pub pid : ℕ

abbrev pub fresh_sems : Semaphores
fresh_sems = record {
  sem_thread = 1;
  full = 0;
  full2 = 0;
  empty = 1;
  empty2 = 1;
  mutex = 1;
  mutex2 = 1;
}

abbrev pub new_node : AddEnv → ThreadInfo
new_node e = record {
  p_thread = 0;
  thr_fd = new_fd;
  message = e.message;
  pid = e.pid;
  net_or_file = 0;
  sems = fresh_sems;
}

unfoldable pub add : AddEnv → Table → Run Ptr
add e = do
  header ← get_header
  next_node ← get_next header
  if e.node == null
      then pure null
      else if not e.sem_init_ok
      then (λ _. exit)
      else if e.message == null
      then (λ _. fault)
      else (do
        alloc e.node (new_node e) next_node header
        set_next header e.node
        set_prev next_node e.node
        add_thr_num
        pure e.node)

-- The pointers of the node's neighbours, and the node's own, when it is taken out.
unfoldable pub unlink : (node next_node prev_node : Ptr) → Table → Run (Unit {0})
unlink node next_node prev_node = do
  set_next prev_node next_node
  set_prev next_node prev_node
  set_next node null
  set_prev node null

-- `sem_destroy` of the semaphores and the `free` of the message buffer, which come before that of the
-- node, are left out.
unfoldable pub delete : (fuel : ℕ) → (fd : ℤ) → Table → Run ℕ
delete fuel fd = do
  tmp ← get_by_fd_all fuel fd
  if tmp == null then pure 2 else (do
    next_node ← get_next tmp
    prev_node ← get_prev tmp
    if next_node != null && prev_node != null
        then (do unlink tmp next_node prev_node; free tmp; sub_thr_num; pure 0)
        else pure 1)

-- As `delete`, but the node is not freed, and an unknown descriptor is no error.
unfoldable pub entry_delete : (fuel : ℕ) → (fd : ℤ) → Table → Run ℕ
entry_delete fuel fd = do
  tmp ← get_by_fd_all fuel fd
  if tmp == null then pure 0 else (do
    next_node ← get_next tmp
    prev_node ← get_prev tmp
    if next_node != null && prev_node != null
        then (do unlink tmp next_node prev_node; sub_thr_num; pure 0)
        else pure 2)

-- A node from `calloc` with its descriptor set.
abbrev pub end_node : ℤ → ThreadInfo
end_node fd = record {
  p_thread = 0;
  thr_fd = fd;
  message = null;
  pid = 0;
  net_or_file = 0;
  sems = record {
    sem_thread = 0;
    full = 0;
    full2 = 0;
    empty = 0;
    empty2 = 0;
    mutex = 0;
    mutex2 = 0;
  };
}

-- The two nodes are what `calloc` returns; 0 is NULL.
unfoldable pub init : (rwlock_ok : Bool) → (header tail : Ptr) → Table → Run ℕ
init rwlock_ok header tail t =
    if not rwlock_ok
    then exit
    else if header == null
    then exit
    else if tail == null
    then exit
    else ok 0 (record {
      live = update (update t.live header true) tail true;
      cell = update (update t.cell header (end_node header_fd)) tail (end_node tail_fd);
      next = update (update t.next header tail) tail null;
      prev = update (update t.prev header tail) tail header;
      header = header;
      tail = tail;
      thr_num = 0;
    })

-- `fdtable_getnumber` and `fdtable_isEmpty`.
unfoldable pub get_number : Table → ℕ
get_number t = t.thr_num

unfoldable pub is_empty : Table → ℕ
is_empty t = if t.thr_num == 0 then 1 else 0

-- ===== src/Table/Fork.antt =====
-- `fdtable_forked` of fdtable.c, without the pool: a child process gives each entry that it has
-- inherited a thread, a buffer and semaphores of its own. Also `fdtable_destroy`.
pub mod Forked
pub mod Destroyed
use core_partitioning.Base.{
  ℕ, zero, suc, ◌+◌, ℤ, negsuc, ◌==ℤ◌, Bool, true, List, [], ◌∷◌, ◌==◌, if◌then◌else◌,
}
use core_partitioning.Table.{
  Ptr, null, ThreadInfo, Table, Run, ok, fault, out_of_fuel, header_fd, fresh_sems, load, get_next,
  get_header, free, ◌>>=◌, ◌>>◌, pure,
}
use core_partitioning.Table.Fields.{set_fields}

abbrev pub select_fd : ℤ
select_fd = negsuc 9999  -- -10000

-- What `getpid`, `pthread_create` and `malloc` give, the latter two for the entry at an address.
pub record ForkEnv : Type 0 where
  pub pid : ℕ
  pub p_thread : Ptr → ℕ
  pub message : Ptr → Ptr

abbrev pub renewed : ForkEnv → Ptr → ThreadInfo → ThreadInfo
renewed e p n = record n {
  sems = fresh_sems;
  pid = e.pid;
  p_thread = e.p_thread p;
  message = e.message p;
}

-- A thread that is started: for which entry, and whether it runs `function2`, `ku_select`.
pub record Started : Type 0 where
  pub entry : Ptr
  pub selects : Bool

abbrev pub get_tail : Table → Run Ptr
get_tail t = ok t.tail t

-- The loop, with the threads that it starts in order.
unfoldable pub renew_from : ForkEnv → (fuel : ℕ) → Ptr → Table → Run (List Started)
renew_from e zero tmp = λ _. out_of_fuel
renew_from e (suc fuel) tmp = do
  tail ← get_tail
  if tmp == tail then pure [] else (do
    n ← load tmp
    if n.thr_fd ==ℤ header_fd then pure [] else (do
      set_fields tmp (renewed e tmp)
      next ← get_next tmp
      rest ← renew_from e fuel next
      pure (record { entry = tmp; selects = n.thr_fd ==ℤ select_fd } ∷ rest)))

unfoldable pub forked : ForkEnv → (fuel : ℕ) → Table → Run (List Started)
forked e fuel = do
  header ← get_header
  set_fields header (λ n. record n { pid = e.pid })
  tmp ← get_next header
  renew_from e fuel tmp

-- The loop of `fdtable_destroy`: the next pointer is read before the node is freed.
unfoldable pub free_from : (fuel : ℕ) → Ptr → Table → Run (Unit {0})
free_from zero tmp = λ _. out_of_fuel
free_from (suc fuel) tmp =
    if tmp == null then pure tt else (do next ← get_next tmp; free tmp; free_from fuel next)

unfoldable pub destroy : (fuel : ℕ) → Table → Run (Unit {0})
destroy fuel = do header ← get_header; free_from fuel header

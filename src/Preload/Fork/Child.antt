-- ===== src/Preload/Fork/Child.antt =====
-- What the child of a `fork` finds in its table.
use core_partitioning.Base.{
  ℕ, ◌<◌, ◌≡◌, ◌≢◌, refl, ap, ℤ, pos, ◌==ℤ◌, false, Returns, List, [], ◌∷◌, length, All, All-mono,
  Bool-cases, inl, inr, ◌==◌, arith,
}
use core_partitioning.Table.{Ptr, null, ThreadInfo, ok, fresh_sems, header_fd, get_by_fd}
use core_partitioning.Table.Chain.{IsTable}
use core_partitioning.Table.Lookup.Found.{get_by_fd-All, get_by_fd_same}
use core_partitioning.Table.Fork.{Started}
use core_partitioning.Table.Fork.Forked.{threads, forked_lem}
use core_partitioning.Preload.Wrapper.{Process}
use core_partitioning.Preload.Fork.{ChildEnv, start_all, alone, fork}

start_all-table :
    {W : Type 0} (e : ChildEnv) (xs : List Started) (s : Process W)
    → (start_all e xs s).table ≡ s.table
start_all-table e [] s = refl
start_all-table e (x ∷ xs) s = start_all-table e xs _

-- In the child each entry has a thread if the system made one.
start_all-keeps :
    {W : Type 0} (e : ChildEnv) (xs : List Started) (s : Process W) (p : Ptr)
    → s.serving p ≡ e.created p
    → (start_all e xs s).serving p ≡ e.created p
start_all-keeps e [] s p h = h
start_all-keeps e (x ∷ xs) s p h = start_all-keeps e xs _ p (elim (Bool-cases (p == x.entry)) [
  | inl k ↦ let q : x.entry ≡ p = ground arith in rw k (ap e.created q)
  | inr k ↦ rw k h
])

start_all-serving :
    {W : Type 0} (e : ChildEnv) (c : Ptr → ThreadInfo) (xs : List Ptr) (s : Process W)
    → All (λ x. (start_all e (threads e.table c xs) s).serving x ≡ e.created x) xs
start_all-serving e c [] s = tt
start_all-serving e c (x ∷ xs) s =
    (start_all-keeps e (threads e.table c xs) _ x (ground arith), start_all-serving e c xs _)

-- The entries are those of the parent, and the descriptor is found in the child by the parent's entry
-- `p`, with no call under way, and with a thread if the system made one.
pub record Inherited {W : Type 0} (e : ChildEnv) (fuel : ℕ) (fd : ℤ) (kind : ℕ) (xs : List Ptr)
    (p : Ptr) (r : ℤ × Process W) : Type 0 where
  pub pid : r.0 ≡ pos 0
  pub table : IsTable r.1.table xs
  pub entry : get_by_fd fuel fd kind r.1.table ≡ ok p r.1.table
  pub node : p ≢ null
  pub sems : (r.1.table.cell p).sems ≡ fresh_sems
  pub serving : r.1.serving p ≡ e.created p

-- On a table none of whose entries has descriptor -10, with more fuel than entries, `fork` returns in the
-- child with the entries of its parent, and a descriptor that the parent finds in its table the
-- child finds too, by the same entry and with no call under way, even if the parent had one. The entry
-- has a thread in the child just if `pthread_create` made one there.
pub fork-Inherited :
    {W : Type 0} (e : ChildEnv) (fuel : ℕ) (s : Process W) (xs : List Ptr)
    → IsTable s.table xs
    → All (λ x. ((s.table.cell x).thr_fd ==ℤ header_fd) ≡ false) xs
    → length xs < fuel
    → (fd : ℤ) (kind : ℕ) (p : Ptr) → get_by_fd fuel fd kind s.table ≡ ok p s.table
    → p ≢ null
    → Returns (Inherited e fuel fd kind xs p) (fork (pos 0) e fuel s)
unfolding fork
fork-Inherited e fuel s xs v fds enough fd kind p found ne =
    let (t', done, v', cells) = forked_lem e.table s.table xs fuel v fds enough in
    let same =
      start_all-table e (threads e.table s.table.cell xs) (record (alone s) { table = t' }) in
    rw done (record {
      pid = refl;
      table = rw same v';
      entry = rw same (
          get_by_fd_same s.table t' xs p fuel fd kind v v' enough
            (All-mono _ _ xs (λ x h. (ap (λ n. n.thr_fd) h, ap (λ n. n.net_or_file) h)) cells)
            found);
      node = ne;
      sems = rw same (
          get_by_fd-All s.table xs p fuel fd kind (λ x. (t'.cell x).sems ≡ fresh_sems) v enough
            found ne (All-mono _ _ xs (λ x h. ap (λ n. n.sems) h) cells));
      serving =
          get_by_fd-All s.table xs p fuel fd kind _ v enough found ne
            (start_all-serving e s.table.cell xs (record (alone s) { table = t' }));
    })

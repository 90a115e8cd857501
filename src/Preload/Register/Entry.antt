-- ===== src/Preload/Register/Entry.antt =====
-- The entry that ld_preload.c makes for a new descriptor.
use core_partitioning.Base.{
  ℕ, ◌<◌, ◌≡◌, ◌≢◌, ℤ, is_negative, Bool, ◌!=◌, ◌||◌, true, false, List, ◌∷◌, arith, All, All-both,
  lt→ltb,
}
use core_partitioning.Table.{
  Ptr, null, Table, fresh_sems, ok, update, get_by_fd_all, get_number, ◌>>=◌,
}
use core_partitioning.Table.Chain.{IsTable, Avoids, IsTable-cell}
use core_partitioning.Table.Add.{add_lem}
use core_partitioning.Preload.Register.{EntryEnv, fill, register, maxthread}

-- The system has a node, a buffer and a thread to give, the node a new one.
pub record Supplied (e : EntryEnv) (t : Table) : Type 0 where
  pub fresh : t.live e.add_env.node ≡ false
  pub node : e.add_env.node ≢ null
  pub sem : e.add_env.sem_init_ok ≡ true
  pub message : e.add_env.message ≢ null
  pub created : e.create_ok ≡ true

-- `p` is an entry for `ret` before the former ones, free for use, and found.
pub record Entered (t t' : Table) (xs : List Ptr) (p : Ptr) (kind : ℕ) (ret : ℤ) : Type 0 where
  pub table : IsTable t' (p ∷ xs)
  pub fd : (t'.cell p).thr_fd ≡ ret
  pub sort : (t'.cell p).net_or_file ≡ kind
  pub sems : (t'.cell p).sems ≡ fresh_sems
  pub others : All (λ x. t'.cell x ≡ t.cell x) xs

module _ (e : EntryEnv) (t : Table) (xs : List Ptr) (v : IsTable t xs)
    (supplied : Supplied e t) where
  abbrev node : Ptr
  node = e.add_env.node

  abbrev filled : Table → (kind : ℕ) → ℤ → Table
  filled t' kind ret = record t' {
    cell = update t'.cell node (record (t'.cell node) {
      p_thread = e.p_thread;
      net_or_file = kind;
      pid = e.add_env.pid;
      thr_fd = ret;
    });
  }

  untouched :
      (t' : Table) (kind : ℕ) (ret : ℤ)
      → Avoids node xs
      → All (λ x. t'.cell x ≡ t.cell x) xs
      → All (λ x. (filled t' kind ret).cell x ≡ t.cell x) xs
  untouched t' kind ret out others =
      All-both (λ x. x ≢ node) (λ x. t'.cell x ≡ t.cell x) _ xs (λ x a b. ground arith) out others

  pub register-Entered :
      (fuel kind : ℕ) (ret : ℤ)
      → get_by_fd_all fuel ret t ≡ ok null t
      → is_negative ret ≡ false
      → t.thr_num < maxthread
      → (t' : Table) × (register e fuel kind true ret t ≡ ok node t')
        × Entered t t' xs node kind ret
  unfolding register fill get_number
  register-Entered fuel kind ret out neg room =
      let (t', done, table, cell, _, others) =
        add_lem e.add_env t xs v supplied.fresh supplied.node supplied.sem supplied.message
          (omega (arith, room)) in
      let live : t'.live node ≡ true = table.nodes.0 in
      (
        filled t' kind ret,
        rw (out, ◌>>=◌, neg, lt→ltb t.thr_num maxthread room, done, ◌>>=◌, live),
        record {
          table =
              IsTable-cell t' (node ∷ xs) (filled t' kind ret).cell table (ground (arith, table));
          fd = ground arith;
          sort = ground arith;
          sems = ground (arith, cell);
          others = untouched t' kind ret (table.distinct.0) others;
        },
      )

-- A known descriptor, or a negative one, gets no entry.
pub register_refuses :
    (e : EntryEnv) (t : Table) (fuel kind : ℕ) (wanted : Bool) (ret : ℤ) (p : Ptr)
    → get_by_fd_all fuel ret t ≡ ok p t
    → (p != null || is_negative ret) ≡ true
    → register e fuel kind wanted ret t ≡ ok null t
unfolding register get_number
register_refuses e t fuel kind wanted ret p found h = rw (found, ◌>>=◌, h)

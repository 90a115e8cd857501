-- ===== src/Preload/Accept/Accepted.antt =====
-- What `accept` of ld_preload.c returns and leaves.
use core_partitioning.Base.{
  ℕ, ◌+◌, ◌^◌, ◌<◌, ◌≡◌, refl, ap, ◌∙◌, ℤ, ◌==ℤ◌, true, false, Returns, List, ◌∷◌, arith, length,
  All, All-mono, ne→==,
}
use core_partitioning.Table.{
  Ptr, null, Table, ThreadInfo, fresh_sems, ok, update, goes_on, get_by_fd, ◌>>=◌,
}
use core_partitioning.Table.Chain.{IsTable-cell, IsTable}
use core_partitioning.Table.Lookup.Found.{get_by_fd_front, get_by_fd-All, get_by_fd_all_absent}
use core_partitioning.Table.Add.{added, add-added, added-IsTable}
use core_partitioning.Preload.Request.{Call, Originals, type_accept}
use core_partitioning.Preload.Thread.{begin, call_value, round, execute}
use core_partitioning.Preload.Wrapper.{Process}
use core_partitioning.Preload.Wrapper.Forward.{Idle, ask-round, call_value-Carries}
use core_partitioning.Preload.Register.{EntryEnv, fill, positive}
use core_partitioning.Preload.Register.Entry.{Supplied}
use core_partitioning.Preload.Accept.{set_pid, admit, accept}

-- The new entry for `ret` stands before the former ones, idle and with a thread that has started;
-- the listening socket `p` only has its process id set.
pub record Admitted (e : EntryEnv) (fuel : ℕ) (xs : List Ptr) (ret : ℤ) (p : Ptr) (t t' : Table)
    : Type 0 where
  pub table : IsTable t' (e.add_env.node ∷ xs)
  pub entry : get_by_fd fuel ret 0 t' ≡ ok e.add_env.node t'
  pub sems : (t'.cell e.add_env.node).sems ≡ fresh_sems
  pub listener : t'.cell p ≡ record (t.cell p) { pid = e.add_env.pid }
  pub others : All (λ x. (t'.cell x).thr_fd ≡ (t.cell x).thr_fd) xs

module _ (e : EntryEnv) (t : Table) (xs : List Ptr) (v : IsTable t xs)
    (supplied : Supplied e t) where
  abbrev node : Ptr
  node = e.add_env.node

  abbrev entered : Table → Ptr → ℤ → Table
  entered t' p ret =
      let c = update t'.cell p (record (t'.cell p) { pid = e.add_env.pid }) in
      record t' {
        cell = update c node (record (c node) {
          p_thread = e.p_thread;
          net_or_file = 0;
          pid = e.add_env.pid;
          thr_fd = ret;
        });
      }

  admit-Admitted :
      (fuel : ℕ) (p : Ptr) (ret : ℤ)
      → t.live p ≡ true
      → positive ret ≡ true
      → All (λ x. ((t.cell x).thr_fd ==ℤ ret) ≡ false) xs
      → t.thr_num + 1 < 2 ^ 32
      → length xs + 1 < fuel
      → (t' : Table) × (admit e fuel p ret t ≡ ok node t') × Admitted e fuel xs ret p t t'
  unfolding admit set_pid fill
  admit-Admitted fuel p ret live more out room enough =
      let t' : Table = added e.add_env t in
      let done =
        add-added e.add_env t xs v supplied.fresh supplied.node supplied.sem supplied.message in
      let table = added-IsTable e.add_env t xs v supplied.fresh supplied.node room in
      let live' : t'.live p ≡ true = ground arith in
      let made : t'.live node ≡ true = ground arith in
      (
        entered t' p ret,
        rw (more, get_by_fd_all_absent t xs fuel ret v (omega arith) out, ◌>>=◌, done, live', made),
        record {
          table = IsTable-cell t' (node ∷ xs) (entered t' p ret).cell table (ground (arith, table));
          entry =
              get_by_fd_front (entered t' p ret) node xs fuel ret 0
                (IsTable-cell t' (node ∷ xs) (entered t' p ret).cell table (ground (arith, table)))
                enough (ground arith) (ground arith) (shown ret more);
          sems = ground arith;
          listener = ground arith;
          others = All-mono (λ x. t.live x ≡ true) _ xs (λ x h. others x h) v.nodes;
        },
      )
    where
      shown : (fd : ℤ) → positive fd ≡ true → goes_on fd ≡ true
      shown fd h = ground arith

      others :
          (x : Ptr)
          → t.live x ≡ true
          → ((entered (added e.add_env t) p ret).cell x).thr_fd ≡ (t.cell x).thr_fd
      others x h = ground arith

-- The caller gets the result and the `errno` of the call `f`, which the thread of `p` makes once
-- with `errno` 0, and the table has the new descriptor.
pub record Accepted {W : Type 0} (e : EntryEnv) (fuel : ℕ) (xs : List Ptr) (p : Ptr) (f : Call W)
    (s : Process W) (r : ℤ × Process W) : Type 0 where
  pub value : r.0 ≡ (f 0 s.world).value
  pub errno : r.1.errno ≡ (f 0 s.world).errno
  pub world : r.1.world ≡ (f 0 s.world).world
  pub admitted : Admitted e fuel xs (f 0 s.world).value p s.table r.1.table
  pub started : r.1.threads e.add_env.node ≡ e.started
  pub serving : r.1.serving e.add_env.node ≡ true

-- The table while the thread waits again.
abbrev answered : Table → Ptr → Table
answered t p = record t { cell = update t.cell p (record (t.cell p) { sems = fresh_sems }) }

same_fd : (t : Table) (p x : Ptr) → ((answered t p).cell x).thr_fd ≡ (t.cell x).thr_fd
same_fd t p x = ground arith

Supplied-answered : (e : EntryEnv) (t : Table) (p : Ptr) → Supplied e t → Supplied e (answered t p)
Supplied-answered e t p h = record {
  fresh = h.fresh;
  node = h.node;
  sem = h.sem;
  message = h.message;
  created = h.created;
}

same_entry : (t : Table) (p : Ptr) → (t.cell p).sems ≡ fresh_sems → (answered t p).cell p ≡ t.cell p
same_entry t p idle = ground (arith, idle)

-- The exchange leaves an idle listener as it was.
Admitted-answered :
    (e : EntryEnv) (fuel : ℕ) (xs : List Ptr) (ret : ℤ) (p : Ptr) (t t' : Table)
    → (t.cell p).sems ≡ fresh_sems
    → Admitted e fuel xs ret p (answered t p) t'
    → Admitted e fuel xs ret p t t'
Admitted-answered e fuel xs ret p t t' idle a = record {
  table = a.table;
  entry = a.entry;
  sems = a.sems;
  listener =
      a.listener
      ∙ ap {A = ThreadInfo} (λ n. record n { pid = e.add_env.pid }) (same_entry t p idle);
  others =
      All-mono (λ x. (t'.cell x).thr_fd ≡ ((answered t p).cell x).thr_fd) _ xs
        (λ x h. h ∙ same_fd t p x) a.others;
}

module _ {W : Type 0} (e : EntryEnv) (s : Process W) (xs : List Ptr) (v : IsTable s.table xs)
    (supplied : Supplied e s.table) (fuel : ℕ) where
  -- On a table with a count below 2^32 - 1, with fuel for one entry more, if the system supplies a
  -- node, a buffer and a thread (`pthread_create` succeeds), the socket has an entry with a waiting
  -- thread and no call under way, and the original function returns a descriptor above 0 that is
  -- not in the table: `accept` returns what the original function does when the socket's thread
  -- calls it with `errno` 0, its `errno` included, and the descriptor has an idle entry of kind 0
  -- before the others, with a thread. Only the process id changes in the entry of the socket.
  pub accept-Accepted :
      (o : Originals W) (socket : ℤ) (addr addrlen : ℕ) (p : Ptr)
      → Idle s (get_by_fd fuel socket 0 s.table) p
      → positive (o.accept socket addr addrlen 0 s.world).value ≡ true
      → All
          (λ x.
            ((s.table.cell x).thr_fd ==ℤ (o.accept socket addr addrlen 0 s.world).value) ≡ false)
          xs
      → s.table.thr_num + 1 < 2 ^ 32
      → length xs + 1 < fuel
      → Returns
          (Accepted e fuel xs p (o.accept socket addr addrlen) s)
          (accept o e fuel socket addr addrlen s)
  unfolding accept round execute begin call_value
  accept-Accepted o socket addr addrlen p idle more out room enough =
      let f = o.accept socket addr addrlen in
      let ret = (f 0 s.world).value in
      let c = call_value-Carries f (s.threads p) s.world in
      let t1 = answered s.table p in
      let live : s.table.live p ≡ true =
        get_by_fd-All s.table xs p fuel socket 0 (λ x. s.table.live x ≡ true) v
          (omega (arith, enough)) idle.entry idle.node v.nodes in
      let (t', done, a) =
        admit-Admitted e t1 xs
          (IsTable-cell s.table xs t1.cell v (same_fd s.table p s.table.tail ∙ v.tail_marked))
          (Supplied-answered e s.table p supplied) fuel p ret live more
          (All-mono (λ x. ((s.table.cell x).thr_fd ==ℤ ret) ≡ false) _ xs
            (λ x h. ap (λ n. n ==ℤ ret) (same_fd s.table p x) ∙ h) out)
          room enough in
      rw
        (
          idle.entry,
          ne→== p null idle.node,
          ask-round o (type_accept socket addr addrlen) s p idle.sems idle.serving,
          done,
          ne→== e.add_env.node null supplied.node,
        )
        (record {
          value = refl;
          errno = c.errno;
          world = refl;
          admitted = Admitted-answered e fuel xs ret p s.table t' idle.sems a;
          started = ground (arith, supplied.created);
          serving = ground (arith, supplied.created);
        })

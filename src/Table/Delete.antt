-- ===== src/Table/Delete.antt =====
-- `fdtable_delete` and `fdtable_entry_delete` of fdtable.c.
pub mod Links
use core_partitioning.Base.{
  ℕ, zero, suc, ◌+◌, ◌-◌, ◌%◌, ◌^◌, ◌≤◌, ◌<◌, ◌≡◌, ◌≢◌, refl, sym, ap, Bool, true, false, List, [],
  ◌∷◌, ◌++◌, arith, length, length-append, All, All-mono, All-both, All-append, ◌==◌, if◌then◌else◌,
  ne→==, ne→!=, ℤ, ◌==ℤ◌, ◌∙◌,
}
use mathlib.Core.Path.{subst}
use core_partitioning.Table.{
  Ptr, null, ThreadInfo, Table, Run, ok, update, goes_on, u32, get_by_fd_all, unlink, delete,
  entry_delete, ◌>>=◌, ◌>>◌,
}
use core_partitioning.Table.Chain.{
  Chain, IsTable, Avoids, Distinct, Chain-prev, Chain-next, last_of, head_of, get_next-live,
  get_prev-live, set_next-live, set_prev-live, free-live,
}
use core_partitioning.Table.Lookup.{visible, first-visible, get_by_fd_all-first}
use core_partitioning.Table.Delete.Links.{
  All-split, All-without, Distinct-without, Avoids-without, All-at, All-last_of, All-head_of, next',
  prev', unlinked, next_front,
}

-- The table with the links changed.
abbrev pub without : Table → Ptr → Table
without t x = record t { next = next' t.next t.prev t.tail x; prev = prev' t.next t.prev t.tail x }

abbrev pub counted_down : Table → Table
counted_down t = record t { thr_num = u32 (t.thr_num + 2 ^ 32 - 1) }

abbrev pub freed : Table → Ptr → Table
freed t x = record t { live = update t.live x false }

module _ (t : Table) (x : Ptr) (ys zs : List Ptr) (v : IsTable t (ys ++ x ∷ zs)) where
  pub node_live : t.live x ≡ true
  node_live = All-at (λ y. t.live y ≡ true) x ys zs v.nodes

  pub prev_eq : t.prev x ≡ last_of t.header ys
  prev_eq = Chain-prev t.next t.prev t.tail x zs t.header (t.next t.header) ys v.chain

  pub next_eq : t.next x ≡ head_of t.tail zs
  next_eq = Chain-next t.next t.prev t.tail x zs t.header (t.next t.header) ys v.chain

  -- Both neighbours are allocated nodes, other than the node itself.
  pub prev_live : (t.live (t.prev x) ≡ true) × (t.prev x ≢ x)
  prev_live = rw prev_eq (
    All-last_of (λ y. t.live y ≡ true) t.header ys v.header_live
        (All-split (λ y. t.live y ≡ true) ys (x ∷ zs) v.nodes).0,
    All-last_of (λ y. y ≢ x) t.header ys
        (λ e. All-at (λ q. q ≢ t.header) x ys zs v.header_out (sym e))
        (All-split (λ y. y ≢ x) ys zs (Avoids-without x ys zs v.distinct)).0,
  )

  pub next_live : (t.live (t.next x) ≡ true) × (t.next x ≢ x)
  next_live = rw next_eq (
    All-head_of (λ y. t.live y ≡ true) t.tail zs v.tail_live
        (All-split (λ y. t.live y ≡ true) ys (x ∷ zs) v.nodes).1.1,
    All-head_of (λ y. y ≢ x) t.tail zs (λ e. All-at (λ q. q ≢ t.tail) x ys zs v.tail_out (sym e))
        (All-split (λ y. y ≢ x) ys zs (Avoids-without x ys zs v.distinct)).1,
  )

  pub next_header : next' t.next t.prev t.tail x t.header ≡ head_of (t.next x) ys
  next_header =
      next_front t.next t.prev t.tail x t.header ys zs v.chain v.distinct v.header_out prev_eq

  pub without-chain :
      Chain
        (without t x).next
        (without t x).prev
        t.tail
        t.header
        ((without t x).next t.header)
        (ys ++ zs)
  without-chain =
      subst (λ q. Chain (without t x).next (without t x).prev t.tail t.header q (ys ++ zs))
        (sym next_header)
        (unlinked t.next t.prev t.tail x t.header (t.next t.header) ys zs v.chain v.distinct
          v.header_out v.tail_out v.ends prev_eq next_eq)

  unlink-without : unlink x (t.next x) (t.prev x) t ≡ ok tt (without t x)
  unfolding unlink
  unlink-without =
      let t1 : Table = record t { next = update t.next (t.prev x) (t.next x) } in
      let t2 : Table = record t1 { prev = update t.prev (t.next x) (t.prev x) } in
      let t3 : Table = record t2 { next = update t2.next x null } in
      rw (
        set_next-live t (t.prev x) prev_live.0 (t.next x),
        ◌>>=◌,
        set_prev-live t1 (t.next x) next_live.0 (t.prev x),
        ◌>>=◌,
        set_next-live t2 x node_live null,
        ◌>>=◌,
        set_prev-live t3 x node_live null,
      )

  pub less_one : t.thr_num < 2 ^ 32 → u32 (t.thr_num + 2 ^ 32 - 1) ≡ length (ys ++ zs)
  less_one h = omega (arith, v.counted, length-append ys (x ∷ zs), length-append ys zs)

  pub without-IsTable : t.thr_num < 2 ^ 32 → IsTable (counted_down (without t x)) (ys ++ zs)
  without-IsTable h = record {
    chain = without-chain;
    nodes = All-without (λ y. t.live y ≡ true) x ys zs v.nodes;
    distinct = Distinct-without x ys zs v.distinct;
    header_out = All-without (λ y. y ≢ t.header) x ys zs v.header_out;
    tail_out = All-without (λ y. y ≢ t.tail) x ys zs v.tail_out;
    ends = v.ends;
    header_live = v.header_live;
    tail_live = v.tail_live;
    null_dead = v.null_dead;
    tail_marked = v.tail_marked;
    counted = less_one h;
  }

  pub freed-IsTable : t.thr_num < 2 ^ 32 → IsTable (counted_down (freed (without t x) x)) (ys ++ zs)
  freed-IsTable h = record {
    chain = without-chain;
    nodes =
        All-both (λ y. t.live y ≡ true) (λ y. y ≢ x) _ (ys ++ zs) (λ y a b. ground arith)
          (All-without (λ y. t.live y ≡ true) x ys zs v.nodes) (Avoids-without x ys zs v.distinct);
    distinct = Distinct-without x ys zs v.distinct;
    header_out = All-without (λ y. y ≢ t.header) x ys zs v.header_out;
    tail_out = All-without (λ y. y ≢ t.tail) x ys zs v.tail_out;
    ends = v.ends;
    header_live = ground (arith, v.header_live, All-at (λ q. q ≢ t.header) x ys zs v.header_out);
    tail_live = ground (arith, v.tail_live, All-at (λ q. q ≢ t.tail) x ys zs v.tail_out);
    null_dead = ground (arith, v.null_dead, node_live);
    tail_marked = v.tail_marked;
    counted = less_one h;
  }

  pub not_null : (p : Ptr) → t.live p ≡ true → p ≢ null
  not_null p h = ground (arith, v.null_dead)

  -- The descriptor's first entry, where no entry up to it has descriptor 0 or -11.
  pub record Found (fd : ℤ) : Type 0 where
    pub shown : All (λ y. goes_on (t.cell y).thr_fd ≡ true) ys
    pub missed : All (λ y. ((t.cell y).thr_fd ==ℤ fd) ≡ false) ys
    pub going : goes_on (t.cell x).thr_fd ≡ true
    pub hit : ((t.cell x).thr_fd ==ℤ fd) ≡ true

  pub get_by_fd_all-node :
      (fd : ℤ) (fuel : ℕ)
      → Found fd
      → length (ys ++ x ∷ zs) < fuel
      → get_by_fd_all fuel fd t ≡ ok x t
  get_by_fd_all-node fd fuel f enough =
      get_by_fd_all-first t (ys ++ x ∷ zs) v fuel enough fd
      ∙ ap (λ q. ok q t)
          (first-visible t.cell (λ n. n.thr_fd ==ℤ fd) ys zs x f.shown f.missed f.going f.hit)

  -- On the first entry with the descriptor, with no descriptor 0 or -11 up to it, `fdtable_delete`
  -- returns 0, takes exactly that entry out, frees its node, leaves a table, and changes no field but
  -- the links; and `fdtable_entry_delete` takes the entry out, too, but keeps the node allocated.
  pub delete_lem :
      (fd : ℤ) (fuel : ℕ)
      → Found fd
      → length (ys ++ x ∷ zs) < fuel
      → t.thr_num < 2 ^ 32
      → (t' : Table) × (delete fuel fd t ≡ ok 0 t')
        × IsTable t' (ys ++ zs)
        × (t'.live x ≡ false)
        × (t'.cell ≡ t.cell)
        × (t'' : Table) × (entry_delete fuel fd t ≡ ok 0 t'')
        × IsTable t'' (ys ++ zs)
        × (t''.live x ≡ true)
  unfolding delete entry_delete
  delete_lem fd fuel f enough small =
      let found = get_by_fd_all-node fd fuel f enough in
      let some = ne→== x null (not_null x node_live) in
      let next = get_next-live t x node_live in
      let prev = get_prev-live t x node_live in
      let ne_next = not_null (t.next x) next_live.0 in
      let ne_prev = not_null (t.prev x) prev_live.0 in
      let unlinked = unlink-without in
      (
        counted_down (freed (without t x) x),
        rw (
          found,
          ◌>>=◌,
          some,
          next,
          ◌>>=◌,
          prev,
          ◌>>=◌,
          ne→!= (t.next x) null ne_next,
          ne→!= (t.prev x) null ne_prev,
          unlinked,
          ◌>>=◌,
          free-live (without t x) x node_live,
        ),
        freed-IsTable small,
        ground arith,
        refl,
        counted_down (without t x),
        rw (
          found,
          ◌>>=◌,
          some,
          next,
          ◌>>=◌,
          prev,
          ◌>>=◌,
          ne→!= (t.next x) null ne_next,
          ne→!= (t.prev x) null ne_prev,
          unlinked,
          ◌>>=◌,
        ),
        without-IsTable small,
        node_live,
      )

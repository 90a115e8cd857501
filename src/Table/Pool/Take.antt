-- ===== src/Table/Pool/Take.antt =====
-- `fdtable_from_pool` of fdtable.c: an entry comes back from the pool.
use core_partitioning.Base.{
  ◌+◌, ◌≡◌, ◌≢◌, refl, sym, Bool, true, false, List, ◌∷◌, arith, All, All-mono, All-both, ne→==,
}
use mathlib.Core.Path.{subst}
use core_partitioning.Table.{Ptr, Table, ok, update, ◌>>=◌}
use core_partitioning.Table.Chain.{
  Chain, IsTable, Avoids, Chain-head, get_next-live, set_next-live, set_prev-live,
}
use core_partitioning.Table.Delete.Links.{All-head_of}
use core_partitioning.Table.Pool.{take_out, from_pool}
use core_partitioning.Table.Pool.Shape.{IsPool, Owns, rebase}

module _ (own : Ptr → Bool) (t : Table) (h l x : Ptr) (xs ps : List Ptr) (v : IsTable t xs)
    (o : Owns own t xs) (q : IsPool own t h l (x ∷ ps)) where
  -- The links after `fdtable_from_pool`.
  abbrev pub taken : Table
  taken = record t {
    next = update (update (update t.next h (t.next x)) x (t.next t.header)) t.header x;
    prev = update (update (update t.prev (t.next x) h) x t.header) (t.next t.header) x;
  }

  first_table : (own (t.next t.header) ≡ true) × (t.live (t.next t.header) ≡ true)
  first_table = rw (Chain-head t.next t.prev t.tail t.header (t.next t.header) xs v.chain) (
    All-head_of (λ y. own y ≡ true) t.tail xs o.tail_table o.all_table,
    All-head_of (λ y. t.live y ≡ true) t.tail xs v.tail_live v.nodes,
  )

  first_ne : t.next t.header ≢ t.header
  first_ne =
      rw (Chain-head t.next t.prev t.tail t.header (t.next t.header) xs v.chain)
        (All-head_of (λ y. y ≢ t.header) t.tail xs (λ e. v.ends (sym e)) v.header_out)

  after_pool : (own (t.next x) ≡ false) × (t.live (t.next x) ≡ true)
  after_pool = rw (Chain-head t.next t.prev l x (t.next x) ps q.chain.2) (
    All-head_of (λ y. own y ≡ false) l ps q.tail_pool q.all_pool.1,
    All-head_of (λ y. t.live y ≡ true) l ps q.tail_live q.nodes.1,
  )

  after_ne : t.next x ≢ x
  after_ne =
      rw (Chain-head t.next t.prev l x (t.next x) ps q.chain.2)
        (All-head_of (λ y. y ≢ x) l ps (λ e. q.tail_out.0 (sym e)) q.distinct.0)

  table_links : All (λ y. (own y ≡ true) × (y ≢ t.header)) xs
  table_links =
      All-both (λ y. own y ≡ true) (λ y. y ≢ t.header) _ xs (λ y a b. (a, b)) o.all_table
        v.header_out

  taken_table : Chain taken.next taken.prev t.tail x (t.next t.header) xs
  taken_table =
      rebase t.next t.prev taken.next taken.prev t.tail t.header x (t.next t.header) xs v.chain
        v.distinct v.tail_out (ground arith)
        (All-mono (λ y. (own y ≡ true) × (y ≢ t.header)) _ xs
          (λ y f. ground (arith, q.all_pool.0, q.header_pool)) table_links)
        (All-mono (λ y. (own y ≡ true) × (y ≢ t.header)) _ xs
          (λ y f ne. ground (arith, q.all_pool.0, after_pool)) table_links)
        (λ ne. ground (arith, q.all_pool.0, after_pool, o.tail_table))

  pool_links : All (λ y. (own y ≡ false) × (y ≢ h) × (y ≢ x)) ps
  pool_links =
      All-both (λ y. own y ≡ false) (λ y. (y ≢ h) × (y ≢ x)) _ ps (λ y a b. (a, b.0, b.1))
        q.all_pool.1
        (All-both (λ y. y ≢ h) (λ y. y ≢ x) _ ps (λ y a b. (a, b)) q.header_out.1 q.distinct.0)

  taken_pool : Chain taken.next taken.prev l h (t.next x) ps
  taken_pool =
      rebase t.next t.prev taken.next taken.prev l x h (t.next x) ps q.chain.2 q.distinct.1
        q.tail_out.1 (ground (arith, first_table, after_pool, after_ne))
        (All-mono (λ y. (own y ≡ false) × (y ≢ h) × (y ≢ x)) _ ps
          (λ y f. ground (arith, o.header_table)) pool_links)
        (All-mono (λ y. (own y ≡ false) × (y ≢ h) × (y ≢ x)) _ ps
          (λ y f ne. ground (arith, first_table)) pool_links)
        (λ ne. ground (arith, first_table, q.tail_pool, q.tail_out.0))

  -- The nodes involved are different, and all are allocated.
  record Roles : Type 0 where
    x_live : t.live x ≡ true
    x_header : x ≢ t.header
    x_h : x ≢ h
    x_tail : x ≢ l
    header_h : t.header ≢ h
    x_front : t.next h ≡ x

  roles : Roles
  roles = record {
    x_live = q.nodes.0;
    x_header = ground (arith, q.all_pool.0, o.header_table);
    x_h = q.header_out.0;
    x_tail = q.tail_out.0;
    header_h = ground (arith, q.header_pool, o.header_table);
    x_front = q.chain.0;
  }

  take_out-taken : take_out h x t ≡ ok x taken
  unfolding take_out
  take_out-taken =
      let r = roles in
      let t1 : Table = record t { next = update t.next h (t.next x) } in
      let t2 : Table = record t1 { prev = update t.prev (t.next x) h } in
      let t3 : Table = record t2 { prev = update t2.prev x t.header } in
      let t4 : Table = record t3 { next = update t3.next x (t.next t.header) } in
      let t5 : Table = record t4 { next = update t4.next t.header x } in
      let after_kept : update t.next h (t.next x) x ≡ t.next x = ground (arith, r.x_h) in
      let first_kept : update t.next h (t.next x) t.header ≡ t.next t.header =
        ground (arith, r.header_h) in
      let front : t5.next x ≡ t.next t.header = ground (arith, r.x_header) in
      rw (
        get_next-live t x r.x_live,
        ◌>>=◌,
        set_next-live t h q.header_live (t.next x),
        ◌>>=◌,
        get_next-live t1 x r.x_live,
        ◌>>=◌,
        after_kept,
        set_prev-live t1 (t.next x) after_pool.1 h,
        ◌>>=◌,
        set_prev-live t2 x r.x_live t.header,
        ◌>>=◌,
        get_next-live t3 t.header v.header_live,
        ◌>>=◌,
        first_kept,
        set_next-live t3 x r.x_live (t.next t.header),
        ◌>>=◌,
        set_next-live t4 t.header v.header_live x,
        ◌>>=◌,
        get_next-live t5 x r.x_live,
        ◌>>=◌,
        front,
        set_prev-live t5 (t.next t.header) first_table.1 x,
        ◌>>=◌,
      )

  from_pool-taken : from_pool h l t ≡ ok x taken
  unfolding from_pool
  from_pool-taken =
      let r = roles in
      rw (get_next-live t h q.header_live, ◌>>=◌, r.x_front, ne→== x l r.x_tail, take_out-taken)
        refl

  counted_up : Table
  counted_up = record taken { thr_num = t.thr_num + 1 }

  -- With the count one higher this is a table.
  taken-IsTable : IsTable counted_up (x ∷ xs)
  unfolding counted_up
  taken-IsTable = record {
    chain = (
      ground arith,
      ground (arith, first_ne, roles, first_table, q.all_pool.0),
      subst (λ p. Chain taken.next taken.prev t.tail x p xs) (sym next_x) taken_table,
    );
    nodes = (roles.x_live, v.nodes);
    distinct = (x_new, v.distinct);
    header_out = (roles.x_header, v.header_out);
    tail_out = (ground (arith, q.all_pool.0, o.tail_table), v.tail_out);
    ends = v.ends;
    header_live = v.header_live;
    tail_live = v.tail_live;
    null_dead = v.null_dead;
    tail_marked = v.tail_marked;
    counted = omega (arith, v.counted);
  }
    where
      next_x : taken.next x ≡ t.next t.header
      next_x = ground (arith, roles)

      x_new : Avoids x xs
      x_new =
          All-mono (λ y. (own y ≡ true) × (y ≢ t.header)) _ xs (λ y f. ground (arith, q.all_pool.0))
            table_links

  abbrev pub owned : Ptr → Bool
  owned = update own x true

  taken-IsPool : IsPool owned taken h l ps
  taken-IsPool = record {
    chain = subst (λ p. Chain taken.next taken.prev l h p ps) (sym next_h) taken_pool;
    nodes = q.nodes.1;
    distinct = q.distinct.1;
    header_out = q.header_out.1;
    tail_out = q.tail_out.1;
    ends = q.ends;
    header_live = q.header_live;
    tail_live = q.tail_live;
    all_pool =
        All-mono (λ y. (own y ≡ false) × (y ≢ h) × (y ≢ x)) _ ps (λ y f. ground arith) pool_links;
    header_pool = ground (arith, q.header_pool, roles);
    tail_pool = ground (arith, q.tail_pool, roles);
  }
    where
      next_h : taken.next h ≡ t.next x
      next_h = ground (arith, roles)

  taken-Owns : Owns owned taken (x ∷ xs)
  taken-Owns = record {
    all_table = (ground arith, All-mono (λ y. own y ≡ true) _ xs (λ y f. ground arith) o.all_table);
    header_table = ground (arith, o.header_table);
    tail_table = ground (arith, o.tail_table);
  }

  -- On a table and a pool that share no node, `fdtable_from_pool` returns the pool's first entry, which it
  -- has moved from the pool to the front of the table. But it does not count the entry: the heap would
  -- be a table again with a count one higher.
  pub from_pool_lem :
      (t' : Table) × (from_pool h l t ≡ ok x t')
      × IsTable (record t' { thr_num = t'.thr_num + 1 }) (x ∷ xs)
      × (t'.thr_num ≡ t.thr_num)
      × (t'.cell ≡ t.cell)
      × Owns owned t' (x ∷ xs)
      × IsPool owned t' h l ps
  unfolding counted_up
  from_pool_lem = (taken, from_pool-taken, taken-IsTable, refl, refl, taken-Owns, taken-IsPool)

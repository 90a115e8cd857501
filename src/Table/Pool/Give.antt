-- ===== src/Table/Pool/Give.antt =====
-- `fdtable_to_pool` of fdtable.c: an entry of the table goes to the pool.
use core_partitioning.Base.{
  ℕ, ◌+◌, ◌-◌, ◌^◌, ◌<◌, ◌≡◌, ◌≢◌, sym, Bool, true, false, List, ◌∷◌, ◌++◌, arith, length, All,
  All-mono, All-both, ne→==, ne→!=, ℤ, negsuc, if◌then◌else◌,
}
use mathlib.Core.Path.{subst}
use core_partitioning.Table.{Ptr, null, Table, ok, update, ◌>>=◌, u32}
use core_partitioning.Table.Fields.{set_fields-live}
use core_partitioning.Table.Chain.{
  Chain, IsTable, Chain-frame, Chain-head, get_next-live, get_prev-live, set_next-live,
  set_prev-live,
}
use core_partitioning.Table.Delete.{
  Found, get_by_fd_all-node, node_live, prev_eq, next_eq, prev_live, next_live, without,
  without-chain, less_one, not_null,
}
use core_partitioning.Table.Delete.Links.{
  All-split, All-without, Distinct-without, Avoids-without, All-at, All-last_of, All-head_of,
}
use core_partitioning.Table.Pool.{to_pool, put_in}
use core_partitioning.Table.Pool.Shape.{IsPool, Owns, rebase}

module _ (own : Ptr → Bool) (t : Table) (h l x : Ptr) (ys zs ps : List Ptr)
    (v : IsTable t (ys ++ x ∷ zs)) (o : Owns own t (ys ++ x ∷ zs)) (q : IsPool own t h l ps) where
  -- The state that `fdtable_to_pool` leaves.
  abbrev pub given : Table
  given = record t {
    cell = update t.cell x (record (t.cell x) { thr_fd = negsuc 0 });
    next = update (update (update t.next (t.prev x) (t.next x)) x (t.next h)) h x;
    prev = update (update (update t.prev (t.next x) (t.prev x)) (t.next h) x) x h;
    thr_num = u32 (t.thr_num + 2 ^ 32 - 1);
  }

  -- Which nodes are the table's, and which the pool's.
  record Sides : Type 0 where
    x_table : own x ≡ true
    prev_table : own (t.prev x) ≡ true
    next_table : own (t.next x) ≡ true
    first_pool : own (t.next h) ≡ false
    first_live : t.live (t.next h) ≡ true
    first_ne : t.next h ≢ h
    x_live : t.live x ≡ true

  sides : Sides
  sides = record {
    x_table = All-at (λ y. own y ≡ true) x ys zs o.all_table;
    prev_table = rw (prev_eq t x ys zs v) (
        All-last_of (λ y. own y ≡ true) t.header ys o.header_table
          (All-split (λ y. own y ≡ true) ys (x ∷ zs) o.all_table).0);
    next_table = rw (next_eq t x ys zs v) (
        All-head_of (λ y. own y ≡ true) t.tail zs o.tail_table
          (All-split (λ y. own y ≡ true) ys (x ∷ zs) o.all_table).1.1);
    first_pool =
        rw (Chain-head t.next t.prev l h (t.next h) ps q.chain)
          (All-head_of (λ y. own y ≡ false) l ps q.tail_pool q.all_pool);
    first_live =
        rw (Chain-head t.next t.prev l h (t.next h) ps q.chain)
          (All-head_of (λ y. t.live y ≡ true) l ps q.tail_live q.nodes);
    first_ne =
        rw (Chain-head t.next t.prev l h (t.next h) ps q.chain)
          (All-head_of (λ y. y ≢ h) l ps (λ e. q.ends (sym e)) q.header_out);
    x_live = node_live t x ys zs v;
  }

  kept_nodes : All (λ y. (own y ≡ true) × (y ≢ x)) (ys ++ zs)
  kept_nodes =
      All-both (λ y. own y ≡ true) (λ y. y ≢ x) _ (ys ++ zs) (λ y a b. (a, b))
        (All-without (λ y. own y ≡ true) x ys zs o.all_table) (Avoids-without x ys zs v.distinct)

  -- The table's side of the links is that of a table without the entry.
  given_table : Chain given.next given.prev t.tail t.header (given.next t.header) (ys ++ zs)
  given_table =
      subst (λ p. Chain given.next given.prev t.tail t.header p (ys ++ zs)) front
        (Chain-frame (without t x).next (without t x).prev given.next given.prev t.tail t.header
          ((without t x).next t.header) (ys ++ zs)
          (All-mono (λ y. (own y ≡ true) × (y ≢ x)) _ (ys ++ zs)
            (λ y f. (ground (arith, q.header_pool), ground (arith, sides))) kept_nodes)
          (ground (arith, sides, o.tail_table, All-at (λ y. y ≢ t.tail) x ys zs v.tail_out))
          (without-chain t x ys zs v))
    where
      front : (without t x).next t.header ≡ given.next t.header
      front =
          ground
            (arith, q.header_pool, o.header_table, All-at (λ y. y ≢ t.header) x ys zs v.header_out)

  given_pool : Chain given.next given.prev l x (t.next h) ps
  given_pool =
      rebase t.next t.prev given.next given.prev l h x (t.next h) ps q.chain q.distinct q.tail_out
        (ground (arith, sides))
        (All-both (λ y. own y ≡ false) (λ y. y ≢ h) _ ps (λ y a b. ground (arith, sides)) q.all_pool
          q.header_out)
        (All-mono (λ y. own y ≡ false) _ ps (λ y a ne. ground (arith, sides)) q.all_pool)
        (λ ne. ground (arith, sides, q.tail_pool))

  -- The entry with its descriptor gone.
  abbrev marked : Table
  marked = record t { cell = update t.cell x (record (t.cell x) { thr_fd = negsuc 0 }) }

  put_in-given : put_in h x (t.next x) (t.prev x) marked ≡ ok tt given
  unfolding put_in
  put_in-given =
      let s = sides in
      let t1 : Table = record marked { next = update t.next (t.prev x) (t.next x) } in
      let t2 : Table = record t1 { prev = update t.prev (t.next x) (t.prev x) } in
      let t3 : Table = record t2 { next = update t1.next x (t.next h) } in
      let t4 : Table = record t3 { prev = update t2.prev (t.next h) x } in
      let t5 : Table = record t4 { prev = update t4.prev x h } in
      let first : update t.next (t.prev x) (t.next x) h ≡ t.next h =
        ground (arith, sides, q.header_pool) in
      let next : t3.next x ≡ t.next h = ground arith in
      rw (
        set_next-live marked (t.prev x) (prev_live t x ys zs v).0 (t.next x),
        ◌>>=◌,
        set_prev-live t1 (t.next x) (next_live t x ys zs v).0 (t.prev x),
        ◌>>=◌,
        get_next-live t2 h q.header_live,
        ◌>>=◌,
        first,
        set_next-live t2 x s.x_live (t.next h),
        ◌>>=◌,
        get_next-live t3 x s.x_live,
        ◌>>=◌,
        next,
        set_prev-live t3 (t.next h) s.first_live x,
        ◌>>=◌,
        set_prev-live t4 x s.x_live h,
        ◌>>=◌,
        set_next-live t5 h q.header_live x,
        ◌>>=◌,
      )

  to_pool-given :
      (fd : ℤ) (fuel : ℕ)
      → Found t x ys zs v fd
      → length (ys ++ x ∷ zs) < fuel
      → to_pool h fuel fd t ≡ ok tt given
  unfolding to_pool
  to_pool-given fd fuel f enough =
      let live : t.live x ≡ true = sides.x_live in
      rw (
        get_by_fd_all-node t x ys zs v fd fuel f enough,
        ◌>>=◌,
        ne→== x null (not_null t x ys zs v x live),
        if◌then◌else◌,
        set_fields-live t x (λ n. record n { thr_fd = negsuc 0 }) live,
        ◌>>=◌,
        get_next-live marked x live,
        ◌>>=◌,
        get_prev-live marked x live,
        ◌>>=◌,
        ne→!= (t.next x) null (not_null t x ys zs v (t.next x) (next_live t x ys zs v).0),
        ne→!= (t.prev x) null (not_null t x ys zs v (t.prev x) (prev_live t x ys zs v).0),
        put_in-given,
      )

  given-IsTable : t.thr_num < 2 ^ 32 → IsTable given (ys ++ zs)
  given-IsTable small = record {
    chain = given_table;
    nodes = All-without (λ y. t.live y ≡ true) x ys zs v.nodes;
    distinct = Distinct-without x ys zs v.distinct;
    header_out = All-without (λ y. y ≢ t.header) x ys zs v.header_out;
    tail_out = All-without (λ y. y ≢ t.tail) x ys zs v.tail_out;
    ends = v.ends;
    header_live = v.header_live;
    tail_live = v.tail_live;
    null_dead = v.null_dead;
    tail_marked = ground (arith, v.tail_marked, All-at (λ y. y ≢ t.tail) x ys zs v.tail_out);
    counted = less_one t x ys zs v small;
  }

  abbrev pub released : Ptr → Bool
  released = update own x false

  given-Owns : Owns released given (ys ++ zs)
  given-Owns = record {
    all_table =
        All-mono (λ y. (own y ≡ true) × (y ≢ x)) _ (ys ++ zs) (λ y f. ground arith) kept_nodes;
    header_table = ground (arith, o.header_table, All-at (λ y. y ≢ t.header) x ys zs v.header_out);
    tail_table = ground (arith, o.tail_table, All-at (λ y. y ≢ t.tail) x ys zs v.tail_out);
  }

  given-IsPool : IsPool released given h l (x ∷ ps)
  given-IsPool = record {
    chain = (
      ground arith,
      ground arith,
      subst (λ p. Chain given.next given.prev l x p ps) (sym next_x) given_pool,
    );
    nodes = (sides.x_live, q.nodes);
    distinct =
        (All-mono (λ y. own y ≡ false) _ ps (λ y f. ground (arith, sides)) q.all_pool, q.distinct);
    header_out = (ground (arith, sides, q.header_pool), q.header_out);
    tail_out = (ground (arith, sides, q.tail_pool), q.tail_out);
    ends = q.ends;
    header_live = q.header_live;
    tail_live = q.tail_live;
    all_pool = (ground arith, All-mono (λ y. own y ≡ false) _ ps (λ y f. ground arith) q.all_pool);
    header_pool = ground (arith, q.header_pool);
    tail_pool = ground (arith, q.tail_pool);
  }
    where
      next_x : given.next x ≡ t.next h
      next_x = ground (arith, sides, q.header_pool)

  -- On a table and a pool that share no node, and on the first entry with the descriptor, with no
  -- descriptor 0 or -11 up to it, `fdtable_to_pool` moves exactly that entry from the table to the front
  -- of the pool, sets its descriptor to -1 and counts it down; both lists stay well formed.
  pub to_pool_lem :
      (fd : ℤ) (fuel : ℕ)
      → Found t x ys zs v fd
      → length (ys ++ x ∷ zs) < fuel
      → t.thr_num < 2 ^ 32
      → (t' : Table) × (to_pool h fuel fd t ≡ ok tt t')
        × IsTable t' (ys ++ zs)
        × Owns released t' (ys ++ zs)
        × IsPool released t' h l (x ∷ ps)
        × ((t'.cell x).thr_fd ≡ negsuc 0)
  to_pool_lem fd fuel f enough small = (
    given,
    to_pool-given fd fuel f enough,
    given-IsTable small,
    given-Owns,
    given-IsPool,
    ground arith,
  )

-- ===== src/Table/Pool/Cycle.antt =====
-- The pool of fdtable.c set up, and an entry that goes to it and comes back.
use core_partitioning.Base.{
  ℕ, ◌+◌, ◌^◌, ◌<◌, ◌≡◌, ◌≢◌, refl, ap, ◌∙◌, Bool, true, false, List, [], ◌∷◌, ◌++◌, arith, length,
  All-mono, ℤ, pos, negsuc, ne→==,
}
use mathlib.Core.Path.{subst}
use core_partitioning.Table.{Ptr, null, Table, ok, update}
use core_partitioning.Table.Chain.{Chain, IsTable, Chain-frame}
use core_partitioning.Table.Delete.{Found}
use core_partitioning.Table.Pool.{empty_pool, init_pool, to_pool, from_pool}
use core_partitioning.Table.Pool.Shape.{IsPool, Owns}
use core_partitioning.Table.Pool.Give.{to_pool_lem}
use core_partitioning.Table.Pool.Take.{from_pool_lem}

module _ (t : Table) (h l : Ptr) (xs : List Ptr) (v : IsTable t xs)
    (fresh : (t.live h ≡ false) × (t.live l ≡ false) × (h ≢ l) × (h ≢ null) × (l ≢ null)) where
  empty_pool-chain :
      Chain
        (empty_pool h l t).next
        (empty_pool h l t).prev
        t.tail
        t.header
        ((empty_pool h l t).next t.header)
        xs
  empty_pool-chain =
      subst (λ p. Chain (empty_pool h l t).next (empty_pool h l t).prev t.tail t.header p xs) front
        (Chain-frame t.next t.prev (empty_pool h l t).next (empty_pool h l t).prev t.tail t.header
          (t.next t.header) xs
          (All-mono (λ x. t.live x ≡ true) _ xs
            (λ x e. (ground (arith, fresh), ground (arith, fresh))) v.nodes)
          (ground (arith, fresh, v.tail_live)) v.chain)
    where
      front : t.next t.header ≡ (empty_pool h l t).next t.header
      front = ground (arith, fresh, v.header_live)

  empty_pool-IsTable : IsTable (empty_pool h l t) xs
  empty_pool-IsTable = record {
    chain = empty_pool-chain;
    nodes = All-mono (λ x. t.live x ≡ true) _ xs (λ x e. ground (arith, fresh)) v.nodes;
    distinct = v.distinct;
    header_out = v.header_out;
    tail_out = v.tail_out;
    ends = v.ends;
    header_live = ground (arith, v.header_live);
    tail_live = ground (arith, v.tail_live);
    null_dead = ground (arith, v.null_dead, fresh);
    tail_marked = ground (arith, v.tail_marked, v.tail_live, fresh);
    counted = v.counted;
  }

  -- On a table, with a working lock and two new nodes, `fdtable_init_pool` returns 0, leaves the table as
  -- it is, and makes an empty pool that shares no node with it.
  pub init_pool_lem :
      (t' : Table) × (init_pool true h l t ≡ ok (pos 0) t')
      × IsTable t' xs
      × Owns t.live t' xs
      × IsPool t.live t' h l []
  unfolding init_pool
  init_pool_lem = (
    empty_pool h l t,
    rw (ne→== h 0 fresh.3, ne→== l 0 fresh.4) refl,
    empty_pool-IsTable,
    record { all_table = v.nodes; header_table = v.header_live; tail_table = v.tail_live },
    record {
      chain = ground (arith, fresh);
      nodes = tt;
      distinct = tt;
      header_out = tt;
      tail_out = tt;
      ends = fresh.2;
      header_live = ground arith;
      tail_live = ground arith;
      all_pool = tt;
      header_pool = fresh.0;
      tail_pool = fresh.1;
    },
  )

-- On a table and a pool that share no node, and on the first entry with the descriptor, with no
-- descriptor 0 or -11 up to it: `fdtable_to_pool` takes exactly that entry out of the table, leaves a
-- table, and puts the entry before the others of the pool; `fdtable_from_pool` then returns it, with
-- descriptor -1, and puts it before the other entries of the table. The pool is as before, but the
-- count of entries is one short.
pub from_pool-to_pool :
    (own : Ptr → Bool) (t : Table) (h l x : Ptr) (ys zs ps : List Ptr)
    (v : IsTable t (ys ++ x ∷ zs))
    → Owns own t (ys ++ x ∷ zs)
    → IsPool own t h l ps
    → (fd : ℤ) (fuel : ℕ) → Found t x ys zs v fd
    → length (ys ++ x ∷ zs) < fuel
    → t.thr_num < 2 ^ 32
    → (t' : Table) × (to_pool h fuel fd t ≡ ok tt t')
      × IsTable t' (ys ++ zs)
      × IsPool (update own x false) t' h l (x ∷ ps)
      × (t'' : Table) × (from_pool h l t' ≡ ok x t'')
      × IsTable (record t'' { thr_num = t''.thr_num + 1 }) (x ∷ (ys ++ zs))
      × IsPool (update (update own x false) x true) t'' h l ps
      × ((t''.cell x).thr_fd ≡ negsuc 0)
      × (t''.thr_num ≡ length (ys ++ zs))
from_pool-to_pool own t h l x ys zs ps v o q fd fuel f enough small =
    let (t', given, v', o', q', mark) =
      to_pool_lem own t h l x ys zs ps v o q fd fuel f enough small in
    let (t'', taken, v'', count, cells, o'', q'') =
      from_pool_lem (update own x false) t' h l x (ys ++ zs) ps v' o' q' in
    (
      t',
      given,
      v',
      q',
      t'',
      taken,
      v'',
      q'',
      ap (λ c. (c x).thr_fd) cells ∙ mark,
      count ∙ v'.counted,
    )

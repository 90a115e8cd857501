-- ===== src/Table/Add.antt =====
-- `fdtable_init` and `fdtable_add` of fdtable.c.
use core_partitioning.Base.{
  negsuc, refl, ◌+◌, ◌^◌, ◌<◌, ◌≡◌, ◌≢◌, sym, true, false, List, [], ◌∷◌, arith, All, All-mono,
  All-both, ◌==◌, ne→==,
}
use mathlib.Core.Path.{subst}
use core_partitioning.Table.{
  Ptr, null, ThreadInfo, Table, ok, update, AddEnv, new_node, end_node, add, init, ◌>>=◌, tail_fd,
  header_fd, u32,
}
use core_partitioning.Table.Chain.{
  Chain, IsTable, Avoids, Chain-frame, get_next-live, set_next-live, set_prev-live,
}

-- The table that `fdtable_init` makes.
abbrev pub empty_table : Table → (header tail : Ptr) → Table
empty_table t header tail = record {
  live = update (update t.live header true) tail true;
  cell = update (update t.cell header (end_node header_fd)) tail (end_node tail_fd);
  next = update (update t.next header tail) tail null;
  prev = update (update t.prev header tail) tail header;
  header = header;
  tail = tail;
  thr_num = 0;
}

-- With a working lock, a heap where address 0 is not live, and two different nodes from `calloc`,
-- `fdtable_init` returns 0 and leaves a table without entries.
pub init-IsTable :
    (t : Table) (header tail : Ptr)
    → header ≢ tail
    → t.live null ≡ false
    → header ≢ null
    → tail ≢ null
    → (init true header tail t ≡ ok 0 (empty_table t header tail))
      × IsTable (empty_table t header tail) []
unfolding init
init-IsTable t header tail ne dead h k =
    let (eh, et) : ((header == 0) ≡ false) × ((tail == 0) ≡ false) =
      (ne→== header 0 h, ne→== tail 0 k) in
    (rw (eh, et), ground arith)

-- The state that `fdtable_add` leaves.
abbrev pub added : AddEnv → Table → Table
added e t = record {
  live = update t.live e.node true;
  cell = update t.cell e.node (new_node e);
  next = update (update t.next e.node (t.next t.header)) t.header e.node;
  prev = update (update t.prev e.node t.header) (t.next t.header) e.node;
  header = t.header;
  tail = t.tail;
  thr_num = u32 (t.thr_num + 1);
}

module _ (e : AddEnv) (t : Table) where
  first_facts :
      (xs : List Ptr)
      → IsTable t xs
      → t.live e.node ≡ false
      → (t.live (t.next t.header) ≡ true)
        × (t.next t.header ≢ t.header)
        × (t.next t.header ≢ e.node)
  first_facts [] v fresh = ground arith
  first_facts (x ∷ xs) v fresh = ground arith

  new_chain :
      (xs : List Ptr)
      → IsTable t xs
      → t.live e.node ≡ false
      → Avoids e.node xs
      → Chain (added e t).next (added e t).prev t.tail e.node (t.next t.header) xs
  new_chain [] v fresh out = ground arith
  new_chain (x ∷ xs) v fresh out = (v.chain.0, ground arith, rest)
    where
      spared : All (λ y. (y ≢ x) × (y ≢ t.header) × (y ≢ e.node)) xs
      spared =
          All-both (λ y. y ≢ x) (λ y. (y ≢ t.header) × (y ≢ e.node)) _ xs (λ y a b. (a, b.0, b.1))
            v.distinct.0
            (All-both (λ y. y ≢ t.header) (λ y. y ≢ e.node) _ xs (λ y a b. (a, b)) v.header_out.1
              out.1)

      same : All (λ y. ((added e t).next y ≡ t.next y) × ((added e t).prev y ≡ t.prev y)) xs
      same =
          All-mono (λ y. (y ≢ x) × (y ≢ t.header) × (y ≢ e.node)) _ xs (λ y h. ground arith) spared

      next_x : (added e t).next x ≡ t.next x
      next_x = ground arith

      rest : Chain (added e t).next (added e t).prev t.tail x ((added e t).next x) xs
      rest =
          subst (λ q. Chain (added e t).next (added e t).prev t.tail x q xs) (sym next_x)
            (Chain-frame t.next t.prev (added e t).next (added e t).prev t.tail x (t.next x) xs same
              (ground arith) v.chain.2)

  pub added-IsTable :
      (xs : List Ptr)
      → IsTable t xs
      → t.live e.node ≡ false
      → e.node ≢ null
      → t.thr_num + 1 < 2 ^ 32
      → IsTable (added e t) (e.node ∷ xs)
  added-IsTable xs v fresh ne small = record {
    chain = (
      ground arith,
      ground (arith, first_facts xs v fresh),
      subst (λ q. Chain (added e t).next (added e t).prev t.tail e.node q xs) (sym next_node)
          (new_chain xs v fresh out),
    );
    nodes = (ground arith, All-mono (λ x. t.live x ≡ true) _ xs (λ x h. ground arith) v.nodes);
    distinct = (out, v.distinct);
    header_out = (ground arith, v.header_out);
    tail_out = (ground arith, v.tail_out);
    ends = v.ends;
    header_live = ground arith;
    tail_live = ground arith;
    null_dead = ground arith;
    tail_marked = ground arith;
    counted = omega arith;
  }
    where
      out : Avoids e.node xs
      out = All-mono (λ x. t.live x ≡ true) (λ x. x ≢ e.node) xs (λ x h. ground arith) v.nodes

      next_node : (added e t).next e.node ≡ t.next t.header
      next_node = ground arith

  pub add-added :
      (xs : List Ptr)
      → IsTable t xs
      → t.live e.node ≡ false
      → e.node ≢ null
      → e.sem_init_ok ≡ true
      → e.message ≢ null
      → add e t ≡ ok e.node (added e t)
  unfolding add
  add-added xs v fresh ne sem msg =
      let f = first_facts xs v fresh in
      let t' : Table = record t {
        live = update t.live e.node true;
        cell = update t.cell e.node (new_node e);
        next = update t.next e.node (t.next t.header);
        prev = update t.prev e.node t.header;
      } in
      let h : t'.live t.header ≡ true = ground arith in
      let t'' : Table = record t' { next = update t'.next t.header e.node } in
      let k : t''.live (t.next t.header) ≡ true = ground arith in
      rw (
        get_next-live t t.header v.header_live,
        ◌>>=◌,
        ne→== e.node null ne,
        sem,
        ne→== e.message null msg,
        set_next-live t' t.header h e.node,
        ◌>>=◌,
        set_prev-live t'' (t.next t.header) k e.node,
        ◌>>=◌,
      )

-- The fields of a new entry and the values of its semaphores: both sides find the buffer empty, and
-- each may take its lock.
pub record Initial (e : AddEnv) (n : ThreadInfo) : Type 0 where
  pub fd : n.thr_fd ≡ negsuc 11
  pub message : n.message ≡ e.message
  pub pid : n.pid ≡ e.pid
  pub net_or_file : n.net_or_file ≡ 0
  pub empty : n.sems.empty ≡ 1
  pub full : n.sems.full ≡ 0
  pub empty2 : n.sems.empty2 ≡ 1
  pub full2 : n.sems.full2 ≡ 0
  pub mutex : n.sems.mutex ≡ 1
  pub mutex2 : n.sems.mutex2 ≡ 1

-- On a table, with a new node, a message buffer and a working `sem_init`, `fdtable_add` puts the
-- node before the other entries, with descriptor -12, the buffer and the process id it was given,
-- kind 0, `empty`, `empty2`, `mutex` and `mutex2` at 1, and `full` and `full2` at 0, leaves the
-- fields of the other entries alone, and returns the node.
pub add_lem :
    (e : AddEnv) (t : Table) (xs : List Ptr)
    → IsTable t xs
    → t.live e.node ≡ false
    → e.node ≢ null
    → e.sem_init_ok ≡ true
    → e.message ≢ null
    → t.thr_num + 1 < 2 ^ 32
    → (t' : Table) × (add e t ≡ ok e.node t')
      × IsTable t' (e.node ∷ xs)
      × (t'.cell e.node ≡ new_node e)
      × Initial e (t'.cell e.node)
      × All (λ x. t'.cell x ≡ t.cell x) xs
add_lem e t xs v fresh ne sem msg small = (
  added e t,
  add-added e t xs v fresh ne sem msg,
  added-IsTable e t xs v fresh ne small,
  ground arith,
  subst (Initial e) (sym made) (record {
    fd = refl;
    message = refl;
    pid = refl;
    net_or_file = refl;
    empty = refl;
    full = refl;
    empty2 = refl;
    full2 = refl;
    mutex = refl;
    mutex2 = refl;
  }),
  All-mono (λ x. t.live x ≡ true) _ xs (λ x h. ground arith) v.nodes,
)
  where
    made : (added e t).cell e.node ≡ new_node e
    made = ground arith

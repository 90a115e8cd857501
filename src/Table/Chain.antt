-- ===== src/Table/Chain.antt =====
-- What makes the heap of fdtable.c a table: the nodes between header and tail, linked both ways.
use core_partitioning.Base.{◌≡◌, ◌≢◌, true, false, List, [], ◌∷◌, ◌++◌, arith, length, All}
use core_partitioning.Table.{
  Ptr, null, ThreadInfo, Table, update, tail_fd, load, get_next, get_prev, set_next, set_prev, free,
  ok,
}

-- From `p`, behind `b`, the links lead both ways through `xs` to the tail.
abbrev pub Chain : (next prev : Ptr → Ptr) → (tail b p : Ptr) → List Ptr → Type 0
Chain next prev tail b p [] = (p ≡ tail) × (prev tail ≡ b)
Chain next prev tail b p (x ∷ xs) = (p ≡ x) × (prev x ≡ b) × Chain next prev tail x (next x) xs

abbrev pub Avoids : Ptr → List Ptr → Type 0
Avoids p xs = All (λ q. q ≢ p) xs

abbrev pub Distinct : List Ptr → Type 0
Distinct [] = Unit
Distinct (x ∷ xs) = Avoids x xs × Distinct xs

-- `t` holds the entries `xs`, the newest first.
pub record IsTable (t : Table) (xs : List Ptr) : Type 0 where
  pub chain : Chain t.next t.prev t.tail t.header (t.next t.header) xs
  pub nodes : All (λ x. t.live x ≡ true) xs
  pub distinct : Distinct xs
  pub header_out : Avoids t.header xs
  pub tail_out : Avoids t.tail xs
  pub ends : t.header ≢ t.tail
  pub header_live : t.live t.header ≡ true
  pub tail_live : t.live t.tail ≡ true
  pub null_dead : t.live null ≡ false
  pub tail_marked : (t.cell t.tail).thr_fd ≡ tail_fd
  pub counted : t.thr_num ≡ length xs

-- Fields other than the links do not matter to the shape of the table.
pub IsTable-cell :
    (t : Table) (xs : List Ptr) (c : Ptr → ThreadInfo)
    → IsTable t xs
    → (c t.tail).thr_fd ≡ tail_fd
    → IsTable (record t { cell = c }) xs
IsTable-cell t xs c v h = record {
  chain = v.chain;
  nodes = v.nodes;
  distinct = v.distinct;
  header_out = v.header_out;
  tail_out = v.tail_out;
  ends = v.ends;
  header_live = v.header_live;
  tail_live = v.tail_live;
  null_dead = v.null_dead;
  tail_marked = h;
  counted = v.counted;
}

-- The links survive a change that spares the nodes and what lies before the tail.
pub Chain-frame :
    (next prev next' prev' : Ptr → Ptr) (tail b p : Ptr) (xs : List Ptr)
    → All (λ x. (next' x ≡ next x) × (prev' x ≡ prev x)) xs
    → prev' tail ≡ prev tail
    → Chain next prev tail b p xs
    → Chain next' prev' tail b p xs
Chain-frame next prev next' prev' tail b p [] same last ch = ground arith
Chain-frame next prev next' prev' tail b p (x ∷ xs) same last ch = (
  ch.0,
  ground arith,
  rw same.0.0 (Chain-frame next prev next' prev' tail x (next x) xs same.1 last ch.2),
)

-- The neighbours of a node in the middle of the list.
abbrev pub last_of : Ptr → List Ptr → Ptr
last_of b [] = b
last_of b (y ∷ ys) = last_of y ys

abbrev pub head_of : Ptr → List Ptr → Ptr
head_of tail [] = tail
head_of tail (z ∷ zs) = z

module _ (next prev : Ptr → Ptr) (tail : Ptr) where
  pub Chain-head : (b p : Ptr) (ws : List Ptr) → Chain next prev tail b p ws → p ≡ head_of tail ws
  Chain-head b p [] ch = ch.0
  Chain-head b p (w ∷ ws) ch = ch.0

  pub Chain-prev :
      (x : Ptr) (zs : List Ptr) (b p : Ptr) (ys : List Ptr)
      → Chain next prev tail b p (ys ++ x ∷ zs)
      → prev x ≡ last_of b ys
  Chain-prev x zs b p [] ch = ch.1
  Chain-prev x zs b p (y ∷ ys) ch = Chain-prev x zs y (next y) ys ch.2

  pub Chain-next :
      (x : Ptr) (zs : List Ptr) (b p : Ptr) (ys : List Ptr)
      → Chain next prev tail b p (ys ++ x ∷ zs)
      → next x ≡ head_of tail zs
  Chain-next x zs b p [] ch = Chain-head x (next x) zs ch.2
  Chain-next x zs b p (y ∷ ys) ch = Chain-next x zs y (next y) ys ch.2

-- The accesses through an allocated pointer.
module _ (t : Table) (p : Ptr) (h : t.live p ≡ true) where
  pub load-live : load p t ≡ ok (t.cell p) t
  unfolding load
  load-live = rw h

  pub get_next-live : get_next p t ≡ ok (t.next p) t
  unfolding get_next
  get_next-live = rw h

  pub get_prev-live : get_prev p t ≡ ok (t.prev p) t
  unfolding get_prev
  get_prev-live = rw h

  pub set_next-live : (q : Ptr) → set_next p q t ≡ ok tt (record t { next = update t.next p q })
  unfolding set_next
  set_next-live q = rw h

  pub set_prev-live : (q : Ptr) → set_prev p q t ≡ ok tt (record t { prev = update t.prev p q })
  unfolding set_prev
  set_prev-live q = rw h

  pub free-live : free p t ≡ ok tt (record t { live = update t.live p false })
  unfolding free
  free-live = rw h

-- ===== src/Preload/Register/Close.antt =====
-- `close` and `shutdown` of ld_preload.c.
use core_partitioning.Base.{
  ℕ, ◌^◌, ◌<◌, ◌≡◌, refl, ℤ, Returns, List, ◌∷◌, ◌++◌, arith, length, All-mono, ne→==, ◌==◌, ◌==ℤ◌,
  ap, true, ◌≢◌, ◌∙◌, All, false, Bool-cases, inl, inr,
}
use core_partitioning.Table.{Ptr, null, Table, fresh_sems, update, goes_on}
use core_partitioning.Table.Delete.Links.{Avoids-without}
use core_partitioning.Table.Chain.{IsTable-cell, IsTable}
use core_partitioning.Table.Delete.{Found, delete_lem, get_by_fd_all-node, node_live, not_null}
use core_partitioning.Preload.Request.{Call, Originals, Request, type_close, type_shutdown}
use core_partitioning.Preload.Thread.{Thread, round, execute, is_last}
use core_partitioning.Preload.Wrapper.{Process}
use core_partitioning.Preload.Wrapper.Forward.{ask-round}
use core_partitioning.Preload.Register.{close, shutdown, end_with}

-- The table while the thread answers: the semaphores of `x` are free again.
abbrev pub answered : Table → Ptr → Table
answered t x = record t { cell = update t.cell x (record (t.cell x) { sems = fresh_sems }) }

pub same_fd : (t : Table) (x y : Ptr) → ((answered t x).cell y).thr_fd ≡ (t.cell y).thr_fd
same_fd t x y = elim (Bool-cases (y == x)) [ inl e ↦ ground arith | inr e ↦ ground arith ]

-- What `close` leaves: the entry is gone, its node freed, its thread out of its loop, the fields
-- and the threads of the others as they were, and the original function was called once.
pub record Closed {W : Type 0} (f : Call W) (s : Process W) (xs : List Ptr) (x : Ptr)
    (r : ℤ × Process W) : Type 0 where
  pub value : r.0 ≡ (f s.errno s.world).value
  pub errno : r.1.errno ≡ (f s.errno s.world).errno
  pub world : r.1.world ≡ (f s.errno s.world).world
  pub table : IsTable r.1.table xs
  pub freed : r.1.table.live x ≡ false
  pub others : All (λ y. r.1.table.cell y ≡ s.table.cell y) xs
  pub ended : r.1.serving x ≡ false
  pub alive : All (λ y. r.1.serving y ≡ s.serving y) xs

module _ {W : Type 0} (s : Process W) (x : Ptr) (ys zs : List Ptr)
    (v : IsTable s.table (ys ++ x ∷ zs)) where
  answered-IsTable : IsTable (answered s.table x) (ys ++ x ∷ zs)
  answered-IsTable =
      IsTable-cell s.table (ys ++ x ∷ zs) (answered s.table x).cell v
        (rw (same_fd s.table x s.table.tail) v.tail_marked)

  answered-Found :
      (fd : ℤ) → Found s.table x ys zs v fd → Found (answered s.table x) x ys zs answered-IsTable fd
  answered-Found fd f = record {
    shown =
        All-mono (λ y. goes_on (s.table.cell y).thr_fd ≡ true) _ ys
          (λ y h. rw (same_fd s.table x y) h) f.shown;
    missed =
        All-mono (λ y. ((s.table.cell y).thr_fd ==ℤ fd) ≡ false) _ ys
          (λ y h. rw (same_fd s.table x y) h) f.missed;
    going = rw (same_fd s.table x x) f.going;
    hit = rw (same_fd s.table x x) f.hit;
  }

  end_with-Closed :
      (o : Originals W) (f : Call W) (request : Request) (fd : ℤ) (fuel : ℕ)
      → ((t : Thread) (w : W) → (round o request t w).1 ≡ w)
      → is_last request ≡ true
      → Found s.table x ys zs v fd
      → (s.table.cell x).sems ≡ fresh_sems
      → s.serving x ≡ true
      → length (ys ++ x ∷ zs) < fuel
      → s.table.thr_num < 2 ^ 32
      → Returns (Closed f s (ys ++ zs) x) (end_with o f request fuel fd s)
  unfolding end_with
  end_with-Closed o f request fd fuel idle ends found free serving enough small =
      let (t', done, table, dead, cells, _, _, _, _) =
        delete_lem (answered s.table x) x ys zs answered-IsTable fd fuel (answered-Found fd found)
          enough small in
      let same = idle (s.threads x) s.world in
      rw
        (
          get_by_fd_all-node s.table x ys zs v fd fuel found enough,
          ne→== x null (not_null s.table x ys zs v x (node_live s.table x ys zs v)),
          ask-round o request s x free serving,
          done,
        )
        (record {
          value = ap (λ w. (f s.errno w).value) same;
          errno = ap (λ w. (f s.errno w).errno) same;
          world = ap (λ w. (f s.errno w).world) same;
          table = table;
          freed = dead;
          others =
              All-mono (λ y. y ≢ x) _ (ys ++ zs) (λ y ne. ap (λ c. c y) cells ∙ other y ne)
                (Avoids-without x ys zs v.distinct);
          ended = ground (arith, ends);
          alive =
              All-mono (λ y. y ≢ x) _ (ys ++ zs) (λ y ne. ground arith)
                (Avoids-without x ys zs v.distinct);
        })
    where
      other : (y : Ptr) → y ≢ x → (answered s.table x).cell y ≡ s.table.cell y
      other y ne = ground arith

  -- On the first entry of a table with the descriptor, with no descriptor 0 or -11 up to it, a
  -- thread that waits and no call under way on it, `close` and `shutdown` return with the thread
  -- out of its loop, take exactly that entry out and free it, leave the fields of the others and
  -- their threads running as before, and do what the original function does.
  pub ends-Closed :
      (o : Originals W) (close_call : ℤ → Call W) (shutdown_call : (socket flags : ℤ) → Call W)
      (fd flags : ℤ) (fuel : ℕ)
      → Found s.table x ys zs v fd
      → (s.table.cell x).sems ≡ fresh_sems
      → s.serving x ≡ true
      → length (ys ++ x ∷ zs) < fuel
      → s.table.thr_num < 2 ^ 32
      → Returns (Closed (close_call fd) s (ys ++ zs) x) (close o close_call fuel fd s)
        × Returns
            (Closed (shutdown_call fd flags) s (ys ++ zs) x)
            (shutdown o shutdown_call fuel fd flags s)
  unfolding close shutdown round execute
  ends-Closed o close_call shutdown_call fd flags fuel found free serving enough small = (
    end_with-Closed o (close_call fd) (type_close fd) fd fuel (λ t w. refl) refl found free serving
        enough small,
    end_with-Closed o (shutdown_call fd flags) (type_shutdown fd flags) fd fuel (λ t w. refl) refl
        found free serving enough small,
  )

-- ===== src/Table/Fork/Forked.antt =====
-- What `fdtable_forked` of fdtable.c leaves.
use core_partitioning.Base.{
  ℕ, zero, suc, ◌<◌, ◌≡◌, ◌≢◌, refl, sym, ap, ◌∙◌, ◌==ℤ◌, true, false, List, [], ◌∷◌, arith, length,
  All, All-mono, All-both, ne→==, if◌then◌else◌,
}
use mathlib.Core.Path.{subst}
use core_partitioning.Table.{Ptr, ThreadInfo, Table, ok, update, header_fd, ◌>>=◌, tail_fd}
use core_partitioning.Table.Chain.{
  IsTable-cell, Chain, IsTable, Avoids, Distinct, load-live, get_next-live,
}
use core_partitioning.Table.Fields.{set_fields-live}
use core_partitioning.Table.Fork.{select_fd, ForkEnv, renewed, Started, renew_from, forked}

module _ (e : ForkEnv) where
  -- The fields after the loop has gone over the entries.
  abbrev refreshed : List Ptr → (Ptr → ThreadInfo) → Ptr → ThreadInfo
  refreshed [] c = c
  refreshed (x ∷ xs) c = refreshed xs (update c x (renewed e x (c x)))

  -- One thread for each entry, in the order of the table.
  abbrev pub threads : (Ptr → ThreadInfo) → List Ptr → List Started
  threads c [] = []
  threads c (x ∷ xs) = record { entry = x; selects = (c x).thr_fd ==ℤ select_fd } ∷ threads c xs

  refreshed_out :
      (q : Ptr) (xs : List Ptr) (c : Ptr → ThreadInfo) → Avoids q xs → refreshed xs c q ≡ c q
  refreshed_out q [] c out = refl
  refreshed_out q (x ∷ xs) c out =
      refreshed_out q xs (update c x (renewed e x (c x))) out.1 ∙ ground (arith, out.0)

  refreshed_in :
      (xs : List Ptr) (c : Ptr → ThreadInfo)
      → Distinct xs
      → All (λ x. refreshed xs c x ≡ renewed e x (c x)) xs
  refreshed_in [] c d = tt
  refreshed_in (x ∷ xs) c d = (
    refreshed_out x xs (update c x (renewed e x (c x))) d.0 ∙ ground arith,
    All-both (λ y. y ≢ x)
        (λ y.
          refreshed xs (update c x (renewed e x (c x))) y
          ≡ renewed e y (update c x (renewed e x (c x)) y))
        _ xs (λ y ne h. h ∙ ground (arith, ne)) d.0
        (refreshed_in xs (update c x (renewed e x (c x))) d.1),
  )

  same_fd :
      (c : Ptr → ThreadInfo) (x y : Ptr) → (update c x (renewed e x (c x)) y).thr_fd ≡ (c y).thr_fd
  same_fd c x y = ground arith

  threads_kept :
      (c : Ptr → ThreadInfo) (x : Ptr) (xs : List Ptr)
      → threads (update c x (renewed e x (c x))) xs ≡ threads c xs
  threads_kept c x [] = refl
  threads_kept c x (y ∷ xs) = rw (same_fd c x y, threads_kept c x xs)

  renew_from-refreshed :
      (fuel : ℕ) (b p : Ptr) (xs : List Ptr) (t : Table)
      → length xs < fuel
      → All (λ x. t.live x ≡ true) xs
      → Avoids t.tail xs
      → Chain t.next t.prev t.tail b p xs
      → All (λ x. ((t.cell x).thr_fd ==ℤ header_fd) ≡ false) xs
      → renew_from e fuel p t ≡ ok (threads t.cell xs) (record t { cell = refreshed xs t.cell })
  unfolding renew_from
  renew_from-refreshed zero b p xs t lt live out ch fds = absurd (omega arith)
  renew_from-refreshed (suc fuel) b p [] t lt live out ch fds = rw (◌>>=◌, ch.0) (ground arith)
  renew_from-refreshed (suc fuel) b p (x ∷ xs) t lt live out ch fds =
      let t' : Table = record t { cell = update t.cell x (renewed e x (t.cell x)) } in
      let ih = renew_from-refreshed fuel x (t.next x) xs t' (omega arith) live.1 out.1 ch.2 (
        All-mono (λ y. ((t.cell y).thr_fd ==ℤ header_fd) ≡ false) _ xs
          (λ y h. rw (same_fd t.cell x y) h) fds.1) in
      subst
        (λ q.
          renew_from e (suc fuel) q t
          ≡ ok (threads t.cell (x ∷ xs)) (record t { cell = refreshed (x ∷ xs) t.cell }))
        (sym ch.0)
        (rw (
          ◌>>=◌,
          ne→== x t.tail out.0,
          if◌then◌else◌,
          load-live t x live.0,
          fds.0,
          set_fields-live t x (renewed e x) live.0,
          get_next-live t' x live.0,
          ih,
          threads_kept t.cell x xs,
          ◌>>=◌,
        ))

  threads_same :
      (c d : Ptr → ThreadInfo) (xs : List Ptr)
      → All (λ x. c x ≡ d x) xs
      → threads c xs ≡ threads d xs
  threads_same c d [] h = refl
  threads_same c d (x ∷ xs) h = rw (h.0, threads_same c d xs h.1)

  -- On a table none of whose entries has descriptor -10, with more fuel than entries, `fdtable_forked`
  -- ends; it starts one thread for each entry, in order, `ku_select` for descriptor -10000, and
  -- leaves the same entries, each with its descriptor and kind, a new buffer and thread, the child's
  -- process id, and its semaphores set for an empty buffer.
  pub forked_lem :
      (t : Table) (xs : List Ptr) (fuel : ℕ)
      → IsTable t xs
      → All (λ x. ((t.cell x).thr_fd ==ℤ header_fd) ≡ false) xs
      → length xs < fuel
      → (t' : Table) × (forked e fuel t ≡ ok (threads t.cell xs) t')
        × IsTable t' xs
        × All (λ x. t'.cell x ≡ renewed e x (t.cell x)) xs
  unfolding forked
  forked_lem t xs fuel v fds enough =
      let t1 : Table = record t {
        cell = update t.cell t.header (record (t.cell t.header) { pid = e.pid });
      } in
      let same : All (λ x. t1.cell x ≡ t.cell x) xs =
        All-mono (λ x. x ≢ t.header) _ xs (λ x ne. ground (arith, ne)) v.header_out in
      let tail_same : (t1.cell t.tail).thr_fd ≡ tail_fd = ground (arith, v.tail_marked) in
      let done =
        renew_from-refreshed fuel t.header (t.next t.header) xs t1 enough v.nodes v.tail_out v.chain
          (All-both (λ x. t1.cell x ≡ t.cell x) (λ x. ((t.cell x).thr_fd ==ℤ header_fd) ≡ false) _
            xs (λ x f h. ap (λ n. n.thr_fd ==ℤ header_fd) f ∙ h) same fds) in
      (
        record t1 { cell = refreshed xs t1.cell },
        rw
            (
              ◌>>=◌,
              set_fields-live t t.header (λ n. record n { pid = e.pid }) v.header_live,
              get_next-live t1 t.header v.header_live,
              done,
            )
            (ap (λ ts. ok ts (record t1 { cell = refreshed xs t1.cell }))
              (threads_same t1.cell t.cell xs same)),
        IsTable-cell t xs (refreshed xs t1.cell) v
            (ap (λ n. n.thr_fd) (refreshed_out t.tail xs t1.cell v.tail_out) ∙ tail_same),
        All-both (λ x. t1.cell x ≡ t.cell x) (λ x. refreshed xs t1.cell x ≡ renewed e x (t1.cell x))
            _ xs (λ x f h. h ∙ ap (renewed e x) f) same (refreshed_in xs t1.cell v.distinct),
      )

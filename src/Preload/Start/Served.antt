-- ===== src/Preload/Start/Served.antt =====
-- Which threads of ld_preload.c get to serve their descriptors.
use core_partitioning.Base.{
  ℕ, ◌<◌, ◌≡◌, ◌≢◌, sym, ap, ◌∙◌, pos, ◌==ℤ◌, true, false, List, [], ◌∷◌, ◌++◌, arith, length, All,
  All-mono, All-both, ◌==◌, ne→==, if◌then◌else◌,
}
use core_partitioning.Table.{
  Ptr, null, ThreadInfo, Table, ok, goes_on, header_fd, get_by_tid, ◌>>=◌,
}
use core_partitioning.Table.Chain.{IsTable, Distinct, load-live}
use core_partitioning.Table.Lookup.{
  first, visible, visible-All, visible_cut, visible_misses, first_skip, visible_lookups,
}
use core_partitioning.Table.Fork.{ForkEnv, renewed, forked}
use core_partitioning.Table.Fork.Forked.{threads, forked_lem}
use core_partitioning.Preload.Start.{gone, serving, start}

-- If each entry has a thread of its own, the first entry with a thread's id is that thread's.
own_first :
    (c : Ptr → ThreadInfo) (id : Ptr → ℕ) (xs : List Ptr)
    → ((x y : Ptr) → id x ≡ id y → x ≡ y)
    → All (λ x. (c x).p_thread ≡ id x) xs
    → Distinct xs
    → All (λ x. first c (λ n. n.p_thread == id x) xs ≡ x) xs
unfolding first
own_first c id [] inj h d = tt
own_first c id (z ∷ xs) inj h d = (
  rw h.0 (ground arith),
  All-both (λ x. x ≢ z) (λ x. first c (λ n. n.p_thread == id x) xs ≡ x) _ xs
      (λ x ne e. rw (h.0, ne→== (id z) (id x) (λ f. ne (sym (inj z x f)))) e) d.0
      (own_first c id xs inj h.1 d.1),
)

-- In the child of a fork, on a table none of whose entries has descriptor -10, -11 or 0, with more fuel
-- than entries, if the new threads have different ids, each thread finds the entry that it was started for and serves it.
pub forked-start :
    (e : ForkEnv) (t : Table) (xs : List Ptr) (fuel : ℕ)
    → IsTable t xs
    → All (λ x. ((t.cell x).thr_fd ==ℤ header_fd) ≡ false) xs
    → All (λ x. goes_on (t.cell x).thr_fd ≡ true) xs
    → ((x y : Ptr) → e.p_thread x ≡ e.p_thread y → x ≡ y)
    → length xs < fuel
    → (t' : Table) × (forked e fuel t ≡ ok (threads e t.cell xs) t')
      × All (λ x. start (e.p_thread x) e.pid fuel t' ≡ ok (serving x (t.cell x).net_or_file) t') xs
unfolding start
forked-start e t xs fuel v fds shown inj enough =
    let (t', done, v', cells) = forked_lem e t xs fuel v fds enough in
    let all_shown : visible t'.cell xs ≡ xs = visible-All t'.cell xs (
      All-both (λ x. t'.cell x ≡ renewed e x (t.cell x)) (λ x. goes_on (t.cell x).thr_fd ≡ true) _
        xs (λ x f g. ap (λ n. goes_on n.thr_fd) f ∙ g) cells shown) in
    let own =
      own_first t'.cell e.p_thread xs inj
        (All-mono (λ x. t'.cell x ≡ renewed e x (t.cell x)) _ xs (λ x f. ap (λ n. n.p_thread) f)
          cells)
        v.distinct in
    (
      t',
      done,
      All-both (λ x. t'.cell x ≡ renewed e x (t.cell x))
          (λ x. (first t'.cell (λ n. n.p_thread == e.p_thread x) xs ≡ x) × (t'.live x ≡ true)) _ xs
          (λ x f g.
            let found : get_by_tid fuel (e.p_thread x) t' ≡ ok x t' =
              (visible_lookups t' xs v' fuel enough (pos 0) 0 (e.p_thread x)).2
              ∙ ap (λ q. ok q t')
                  (ap (first t'.cell (λ n. n.p_thread == e.p_thread x)) all_shown ∙ g.0) in
            let ne : x ≢ null = ground (arith, g.1, v'.null_dead) in
            rw (◌>>=◌, found, ne→== x null ne, if◌then◌else◌, load-live t' x g.1, f) (ground arith))
          cells
          (All-both (λ x. first t'.cell (λ n. n.p_thread == e.p_thread x) xs ≡ x)
            (λ x. t'.live x ≡ true) _ xs (λ x a b. (a, b)) own v'.nodes),
    )

-- With more fuel than entries, a thread whose id no entry has before one with descriptor 0 does not find
-- the entry that it may have behind, and ends without serving.
pub start_hidden :
    (t : Table) (ys zs : List Ptr) (z : Ptr)
    → IsTable t (ys ++ z ∷ zs)
    → (fuel self pid : ℕ) → length (ys ++ z ∷ zs) < fuel
    → (t.cell z).thr_fd ≡ pos 0
    → All (λ y. ((t.cell y).p_thread == self) ≡ false) ys
    → start self pid fuel t ≡ ok gone t
unfolding start
start_hidden t ys zs z v fuel self pid enough zero_fd h = rw (
  ◌>>=◌,
  (visible_lookups t (ys ++ z ∷ zs) v fuel enough (pos 0) 0 self).2,
  visible_cut t.cell ys zs z zero_fd,
  first_skip t.cell (λ n. n.p_thread == self) (visible t.cell ys)
      (visible_misses t.cell (λ y. ((t.cell y).p_thread == self) ≡ false) ys h),
)

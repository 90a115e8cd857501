-- ===== src/Table/Lookup.antt =====
-- The look-ups of fdtable.c.
pub mod Found
use core_partitioning.Base.{
  not, negsuc, ℕ, zero, suc, ◌<◌, ◌≡◌, ◌≢◌, refl, sym, ap, ◌∙◌, ==ℤ_iff, ◌+◌, Bool, true, false,
  ◌&&◌, List, [], ◌∷◌, ◌++◌, arith, length, All-mono, All, ◌==◌, if◌then◌else◌, Bool-cases, inl,
  inr, ℤ, pos, ◌==ℤ◌,
}
use mathlib.Core.Path.{subst}
use core_partitioning.Table.{
  Ptr, null, ThreadInfo, Table, Run, ok, exit, fault, out_of_fuel, goes_on, search, search_table,
  get_by_fd_all, get_by_fd, get_by_tid, tail_fd, ◌>>=◌,
}
use core_partitioning.Table.Chain.{Chain, IsTable, load-live, get_next-live}

-- The descriptors at which a look-up stops, as numbers.
abbrev pub hides : ℤ → Bool
hides (pos n) = n == 0
hides (negsuc n) = n == 10

goes_on-hides : (fd : ℤ) → goes_on fd ≡ not (hides fd)
goes_on-hides (pos n) = ground arith
goes_on-hides (negsuc n) = ground arith

module _ (c : Ptr → ThreadInfo) where
  -- The entries that a look-up gets to: those before the first with descriptor 0 (or -11).
  unfoldable pub visible : List Ptr → List Ptr
  visible [] = []
  visible (x ∷ xs) = if goes_on (c x).thr_fd then x ∷ visible xs else []

  unfoldable pub first : (ThreadInfo → Bool) → List Ptr → Ptr
  first test [] = null
  first test (x ∷ xs) = if test (c x) then x else first test xs

  -- Every entry is visible if none has such a descriptor.
  pub visible-All : (xs : List Ptr) → All (λ x. goes_on (c x).thr_fd ≡ true) xs → visible xs ≡ xs
  unfolding visible
  visible-All [] h = refl
  visible-All (x ∷ xs) h = rw (h.0, visible-All xs h.1)

  pub visible_cut :
      (ys zs : List Ptr) (z : Ptr) → (c z).thr_fd ≡ pos 0 → visible (ys ++ z ∷ zs) ≡ visible ys
  unfolding visible
  visible_cut [] zs z h = rw h
  visible_cut (y ∷ ys) zs z h = rw (visible_cut ys zs z h)

  -- The entries before the first with descriptor 0 or -11.
  unfoldable pub reached : List Ptr → List Ptr
  reached [] = []
  reached (x ∷ xs) = if hides (c x).thr_fd then [] else x ∷ reached xs

  reached-visible : (xs : List Ptr) → visible xs ≡ reached xs
  unfolding visible reached
  reached-visible [] = refl
  reached-visible (x ∷ xs) = elim (Bool-cases (hides (c x).thr_fd)) [
    | inl e ↦ rw (goes_on-hides (c x).thr_fd, e)
    | inr e ↦ rw (goes_on-hides (c x).thr_fd, e, reached-visible xs)
  ]

  pub first_skip :
      (test : ThreadInfo → Bool) (xs : List Ptr)
      → All (λ x. test (c x) ≡ false) xs
      → first test xs ≡ null
  unfolding first
  first_skip test [] h = refl
  first_skip test (x ∷ xs) h = rw h.0 (first_skip test xs h.1)

  pub first-visible :
      (test : ThreadInfo → Bool) (ys zs : List Ptr) (x : Ptr)
      → All (λ y. goes_on (c y).thr_fd ≡ true) ys
      → All (λ y. test (c y) ≡ false) ys
      → goes_on (c x).thr_fd ≡ true
      → test (c x) ≡ true
      → first test (visible (ys ++ x ∷ zs)) ≡ x
  unfolding first visible
  first-visible test [] zs x s m g e = rw (g, e)
  first-visible test (y ∷ ys) zs x s m g e = rw (s.0, m.0) (first-visible test ys zs x s.1 m.1 g e)

  pub visible_misses : (P : Ptr → Type 0) (xs : List Ptr) → All P xs → All P (visible xs)
  unfolding visible
  visible_misses P [] h = tt
  visible_misses P (x ∷ xs) h = elim (Bool-cases (goes_on (c x).thr_fd)) [
    | inl e ↦ rw e (h.0, visible_misses P xs h.1)
    | inr e ↦ rw e tt
  ]

module _ (test : ThreadInfo → Bool) (t : Table) where
  search-visible :
      (fuel : ℕ) (prev p : Ptr) (xs : List Ptr)
      → length xs < fuel
      → t.live t.tail ≡ true
      → (t.cell t.tail).thr_fd ≡ tail_fd
      → All (λ x. t.live x ≡ true) xs
      → Chain t.next t.prev t.tail prev p xs
      → search test fuel p t ≡ ok (first t.cell test (visible t.cell xs)) t
  unfolding search first visible
  search-visible zero prev p xs lt tl tm nodes ch = absurd (omega arith)
  search-visible (suc fuel) prev p [] lt tl tm nodes ch =
      rw (ch.0, load-live t t.tail tl, ◌>>=◌, tm)
  search-visible (suc fuel) prev p (x ∷ xs) lt tl tm nodes ch =
      rw (ch.0, load-live t x nodes.0, ◌>>=◌)
        (elim (Bool-cases (goes_on (t.cell x).thr_fd)) [
          | inl e ↦ rw e (elim (Bool-cases (test (t.cell x))) [
            | inl hit ↦ rw hit (ap (λ q. ok q t) ch.0)
            | inr miss ↦
                rw (miss, get_next-live t p (rw ch.0 nodes.0), ◌>>=◌, ch.0)
                  (search-visible fuel x (t.next x) xs (omega arith) tl tm nodes.1 ch.2)
          ])
          | inr e ↦ rw e
        ])

  -- With more fuel than entries every look-up ends, changes nothing, and returns the first visible
  -- entry that passes its test, or NULL.
  pub search_table-first :
      (fuel : ℕ) (xs : List Ptr)
      → IsTable t xs
      → length xs < fuel
      → search_table test fuel t ≡ ok (first t.cell test (visible t.cell xs)) t
  unfolding search_table
  search_table-first fuel xs v lt =
      rw (get_next-live t t.header v.header_live, ◌>>=◌)
        (search-visible fuel t.header _ xs lt v.tail_live v.tail_marked v.nodes v.chain)

module _ (t : Table) (xs : List Ptr) (v : IsTable t xs) (fuel : ℕ) (enough : length xs < fuel) where
  pub get_by_fd_all-first :
      (fd : ℤ)
      → get_by_fd_all fuel fd t ≡ ok (first t.cell (λ n. n.thr_fd ==ℤ fd) (visible t.cell xs)) t
  unfolding get_by_fd_all
  get_by_fd_all-first fd = search_table-first _ t fuel xs v enough

  pub visible_lookups :
      (fd : ℤ) (kind pthread : ℕ)
      → (get_by_fd_all fuel fd t ≡ ok (first t.cell (λ n. n.thr_fd ==ℤ fd) (visible t.cell xs)) t)
        × (get_by_fd fuel fd kind t
            ≡ ok
                (first t.cell (λ n. n.thr_fd ==ℤ fd && n.net_or_file == kind) (visible t.cell xs))
                t)
        × (get_by_tid fuel pthread t
            ≡ ok (first t.cell (λ n. n.p_thread == pthread) (visible t.cell xs)) t)
  unfolding get_by_fd get_by_tid
  visible_lookups fd kind pthread = (
    get_by_fd_all-first fd,
    search_table-first _ t fuel xs v enough,
    search_table-first _ t fuel xs v enough,
  )

  -- All three look-ups end on a table, change nothing, and return the first entry with the
  -- descriptor, with the descriptor and the kind, or with the thread, among the entries before
  -- the first with descriptor 0 or -11; NULL if there is none.
  pub lookups :
      (fd : ℤ) (kind pthread : ℕ)
      → (get_by_fd_all fuel fd t ≡ ok (first t.cell (λ n. n.thr_fd ==ℤ fd) (reached t.cell xs)) t)
        × (get_by_fd fuel fd kind t
            ≡ ok
                (first t.cell (λ n. n.thr_fd ==ℤ fd && n.net_or_file == kind) (reached t.cell xs))
                t)
        × (get_by_tid fuel pthread t
            ≡ ok (first t.cell (λ n. n.p_thread == pthread) (reached t.cell xs)) t)
  lookups fd kind pthread = rw (sym (reached-visible t.cell xs)) (visible_lookups fd kind pthread)

-- An entry with descriptor 0 hides the entries behind it: a descriptor that only they have is not
-- found, though the table holds it.
pub get_by_fd_all_hidden :
    (t : Table) (ys zs : List Ptr) (z : Ptr)
    → IsTable t (ys ++ z ∷ zs)
    → (fuel : ℕ) → length (ys ++ z ∷ zs) < fuel
    → (t.cell z).thr_fd ≡ pos 0
    → (fd : ℤ) → All (λ y. ((t.cell y).thr_fd ==ℤ fd) ≡ false) ys
    → get_by_fd_all fuel fd t ≡ ok null t
get_by_fd_all_hidden t ys zs z v fuel enough zero_fd fd h = rw (
  get_by_fd_all-first t (ys ++ z ∷ zs) v fuel enough fd,
  visible_cut t.cell ys zs z zero_fd,
  first_skip t.cell (λ n. n.thr_fd ==ℤ fd) (visible t.cell ys)
      (visible_misses t.cell (λ y. ((t.cell y).thr_fd ==ℤ fd) ≡ false) ys h),
)

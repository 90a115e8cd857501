-- ===== src/Table/Lookup/Found.antt =====
-- What the look-ups of fdtable.c find, and what does not change it.
use core_partitioning.Base.{
  ℕ, ◌<◌, ◌≡◌, ◌≢◌, refl, sym, ap, ◌∙◌, ==ℤ_iff, ◌+◌, Bool, true, false, ◌&&◌, List, [], ◌∷◌, arith,
  length, All-mono, All, ◌==◌, Bool-cases, inl, inr, ℤ, ◌==ℤ◌,
}
use mathlib.Core.Path.{subst}
use core_partitioning.Table.{
  Ptr, null, ThreadInfo, Table, Run, ok, exit, fault, out_of_fuel, goes_on, get_by_fd_all,
  get_by_fd,
}
use core_partitioning.Table.Chain.{IsTable}
use core_partitioning.Table.Lookup.{
  first, visible, visible_misses, first_skip, first-visible, visible_lookups, get_by_fd_all-first,
}

-- The entry that a look-up finds is one of the list.
first-All :
    (c : Ptr → ThreadInfo) (test : ThreadInfo → Bool) (P : Ptr → Type 0) (xs : List Ptr)
    → All P xs
    → first c test xs ≢ null
    → P (first c test xs)
unfolding first
first-All c test P [] h ne = absurd (ne refl)
first-All c test P (x ∷ xs) h ne = elim (Bool-cases (test (c x))) [
  | inl e ↦ rw e h.0
  | inr e ↦ rw e (first-All c test P xs h.1 (λ z. ne (rw e z)))
]

-- What is found depends on the tests only.
first_same :
    (c d : Ptr → ThreadInfo) (test : ThreadInfo → Bool) (xs : List Ptr)
    → All (λ x. (goes_on (d x).thr_fd ≡ goes_on (c x).thr_fd) × (test (d x) ≡ test (c x))) xs
    → first d test (visible d xs) ≡ first c test (visible c xs)
unfolding first visible
first_same c d test [] h = refl
first_same c d test (x ∷ xs) h = elim (Bool-cases (goes_on (c x).thr_fd)) [
  | inl e ↦ rw (h.0.0, e, first, h.0.1, first_same c d test xs h.1)
  | inr e ↦ rw (h.0.0, e)
]

-- A descriptor that no entry has is not found.
pub get_by_fd_all_absent :
    (t : Table) (xs : List Ptr) (fuel : ℕ) (fd : ℤ)
    → IsTable t xs
    → length xs < fuel
    → All (λ x. ((t.cell x).thr_fd ==ℤ fd) ≡ false) xs
    → get_by_fd_all fuel fd t ≡ ok null t
get_by_fd_all_absent t xs fuel fd v enough h = rw (
  get_by_fd_all-first t xs v fuel enough fd,
  first_skip t.cell (λ n. n.thr_fd ==ℤ fd) (visible t.cell xs)
      (visible_misses t.cell (λ y. ((t.cell y).thr_fd ==ℤ fd) ≡ false) xs h),
)

-- The first entry is found by its descriptor and kind.
pub get_by_fd_front :
    (t : Table) (p : Ptr) (xs : List Ptr) (fuel : ℕ) (fd : ℤ) (kind : ℕ)
    → IsTable t (p ∷ xs)
    → length xs + 1 < fuel
    → (t.cell p).thr_fd ≡ fd
    → (t.cell p).net_or_file ≡ kind
    → goes_on fd ≡ true
    → get_by_fd fuel fd kind t ≡ ok p t
get_by_fd_front t p xs fuel fd kind v enough is_fd is_kind shown =
    (visible_lookups t (p ∷ xs) v fuel (omega (arith, enough)) fd kind 0).1
    ∙ ap (λ q. ok q t)
        (first-visible t.cell (λ c. c.thr_fd ==ℤ fd && c.net_or_file == kind) [] xs p tt tt
          (ap goes_on is_fd ∙ shown) (rw (is_fd, is_kind, (==ℤ_iff fd fd).1 refl) (ground arith)))

-- What a look-up returns.
abbrev got : Run Ptr → Ptr
got r = elim r [ ok p _ ↦ p | exit ↦ null | fault ↦ null | out_of_fuel ↦ null ]

-- A property of all entries is one of the entry found.
pub get_by_fd-All :
    (t : Table) (xs : List Ptr) (p : Ptr) (fuel : ℕ) (fd : ℤ) (kind : ℕ) (P : Ptr → Type 0)
    → IsTable t xs
    → length xs < fuel
    → get_by_fd fuel fd kind t ≡ ok p t
    → p ≢ null
    → All P xs
    → P p
get_by_fd-All t xs p fuel fd kind P v enough found ne h =
    let test : ThreadInfo → Bool = λ n. n.thr_fd ==ℤ fd && n.net_or_file == kind in
    let same : p ≡ first t.cell test (visible t.cell xs) =
      ap got (sym found ∙ (visible_lookups t xs v fuel enough fd kind 0).1) in
    subst P (sym same) (
      first-All t.cell test P (visible t.cell xs) (visible_misses t.cell P xs h)
        (λ z. ne (same ∙ z)))

-- A change that keeps descriptors and kinds does not change what is found.
pub get_by_fd_same :
    (t t' : Table) (xs : List Ptr) (p : Ptr) (fuel : ℕ) (fd : ℤ) (kind : ℕ)
    → IsTable t xs
    → IsTable t' xs
    → length xs < fuel
    → All
        (λ x.
          ((t'.cell x).thr_fd ≡ (t.cell x).thr_fd)
          × ((t'.cell x).net_or_file ≡ (t.cell x).net_or_file))
        xs
    → get_by_fd fuel fd kind t ≡ ok p t
    → get_by_fd fuel fd kind t' ≡ ok p t'
get_by_fd_same t t' xs p fuel fd kind v v' enough same found =
    let test : ThreadInfo → Bool = λ n. n.thr_fd ==ℤ fd && n.net_or_file == kind in
    let was : p ≡ first t.cell test (visible t.cell xs) =
      ap got (sym found ∙ (visible_lookups t xs v fuel enough fd kind 0).1) in
    (visible_lookups t' xs v' fuel enough fd kind 0).1
    ∙ ap (λ q. ok q t')
        (first_same t.cell t'.cell test xs
            (All-mono _ _ xs (λ x h. (ap goes_on h.0, rw (h.0, h.1))) same)
          ∙ sym was)

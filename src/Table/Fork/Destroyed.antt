-- ===== src/Table/Fork/Destroyed.antt =====
-- What `fdtable_destroy` of fdtable.c leaves.
use core_partitioning.Base.{
  ℕ, zero, suc, ◌+◌, ◌<◌, ◌≡◌, ◌≢◌, refl, sym, ◌∙◌, Bool, true, false, List, [], ◌∷◌, ◌++◌, arith,
  length, length-append, All, All-append, All-both, ne→==, if◌then◌else◌,
}
use mathlib.Core.Path.{subst}
use core_partitioning.Table.{Ptr, null, Table, ok, update, ◌>>=◌}
use core_partitioning.Table.Chain.{Chain, IsTable, Avoids, Distinct, get_next-live, free-live}
use core_partitioning.Table.Fork.{free_from, destroy}

-- The links lead from `p` through `ps` to NULL.
abbrev Leads : (next : Ptr → Ptr) → Ptr → List Ptr → Type 0
Leads next p [] = p ≡ null
Leads next p (x ∷ ps) = (p ≡ x) × Leads next (next x) ps

abbrev freed : List Ptr → (Ptr → Bool) → Ptr → Bool
freed [] live = live
freed (x ∷ ps) live = freed ps (update live x false)

freed_out : (q : Ptr) (ps : List Ptr) (live : Ptr → Bool) → Avoids q ps → freed ps live q ≡ live q
freed_out q [] live out = refl
freed_out q (x ∷ ps) live out = freed_out q ps (update live x false) out.1 ∙ ground (arith, out.0)

freed_stays :
    (q : Ptr) (ps : List Ptr) (live : Ptr → Bool) → live q ≡ false → freed ps live q ≡ false
freed_stays q [] live h = h
freed_stays q (x ∷ ps) live h = freed_stays q ps (update live x false) (ground (arith, h))

freed_in : (ps : List Ptr) (live : Ptr → Bool) → All (λ x. freed ps live x ≡ false) ps
freed_in [] live = tt
freed_in (x ∷ ps) live =
    (freed_stays x ps (update live x false) (ground arith), freed_in ps (update live x false))

free_from-freed :
    (fuel : ℕ) (p : Ptr) (ps : List Ptr) (t : Table)
    → length ps < fuel
    → t.live null ≡ false
    → All (λ x. t.live x ≡ true) ps
    → Distinct ps
    → Leads t.next p ps
    → free_from fuel p t ≡ ok tt (record t { live = freed ps t.live })
unfolding free_from
free_from-freed zero p ps t lt dead live d leads = absurd (omega arith)
free_from-freed (suc fuel) p [] t lt dead live d leads = rw leads refl
free_from-freed (suc fuel) p (x ∷ ps) t lt dead live d leads =
    let t' : Table = record t { live = update t.live x false } in
    let ne : x ≢ null = ground arith in
    let ih =
      free_from-freed fuel (t.next x) ps t' (omega arith) (ground arith)
        (All-both (λ y. y ≢ x) (λ y. t.live y ≡ true) _ ps (λ y n h. ground arith) d.0 live.1) d.1
        leads.1 in
    subst (λ q. free_from (suc fuel) q t ≡ ok tt (record t { live = freed (x ∷ ps) t.live }))
      (sym leads.0)
      (rw
        (◌>>=◌, ne→== x null ne, if◌then◌else◌, get_next-live t x live.0, free-live t x live.0, ih))

module _ (next prev : Ptr → Ptr) (tail : Ptr) (end : next tail ≡ null) where
  Chain-Leads :
      (b p : Ptr) (xs : List Ptr) → Chain next prev tail b p xs → Leads next p (xs ++ tail ∷ [])
  Chain-Leads b p [] ch = (ch.0, end)
  Chain-Leads b p (x ∷ xs) ch = (ch.0, Chain-Leads x (next x) xs ch.2)

Distinct-append :
    (tail : Ptr) (xs : List Ptr) → Distinct xs → Avoids tail xs → Distinct (xs ++ tail ∷ [])
Distinct-append tail [] d out = (tt, tt)
Distinct-append tail (x ∷ xs) d out = (
  All-append (λ y. y ≢ x) xs (tail ∷ []) d.0 ((λ e. out.0 (sym e)), tt),
  Distinct-append tail xs d.1 out.1,
)

-- On a table whose tail is the last node, with more fuel than nodes, `fdtable_destroy` ends without a
-- fault and frees the header, the tail and every entry, each once, and nothing else.
pub destroy_lem :
    (t : Table) (xs : List Ptr) (fuel : ℕ)
    → IsTable t xs
    → t.next t.tail ≡ null
    → length xs + 2 < fuel
    → (q : Ptr) → Avoids q (t.header ∷ (xs ++ t.tail ∷ []))
    → (t' : Table) × (destroy fuel t ≡ ok tt t')
      × All (λ p. t'.live p ≡ false) (t.header ∷ (xs ++ t.tail ∷ []))
      × (t'.live q ≡ t.live q)
unfolding destroy
destroy_lem t xs fuel v end enough q other =
    let ps : List Ptr = t.header ∷ (xs ++ t.tail ∷ []) in
    let out : Avoids t.header (xs ++ t.tail ∷ []) =
      All-append (λ y. y ≢ t.header) xs (t.tail ∷ []) v.header_out ((λ e. v.ends (sym e)), tt) in
    (
      record t { live = freed ps t.live },
      free_from-freed fuel t.header ps t (omega (arith, length-append xs (t.tail ∷ []))) v.null_dead
          (
            v.header_live,
            All-append (λ x. t.live x ≡ true) xs (t.tail ∷ []) v.nodes (v.tail_live, tt),
          )
          (out, Distinct-append t.tail xs v.distinct v.tail_out)
          (refl, Chain-Leads t.next t.prev t.tail end t.header (t.next t.header) xs v.chain),
      freed_in ps t.live,
      freed_out q ps t.live other,
    )

-- ===== src/Table/Traversal/Order.antt =====
-- What the loops over all entries of the table print.
use core_partitioning.Base.{
  ℕ, zero, suc, ◌+◌, ◌<◌, ◌≡◌, ◌≢◌, refl, sym, true, List, [], ◌∷◌, map, arith, length, All, ne→==,
  if◌then◌else◌,
}
use mathlib.Core.Path.{subst}
use mathlib.Core.List.{reverse, reverse_aux}
use core_partitioning.Table.{Ptr, ThreadInfo, Table, Run, ok, get_next, get_prev, ◌>>=◌}
use core_partitioning.Table.Chain.{Chain, IsTable, Avoids, load-live, get_next-live, get_prev-live}
use core_partitioning.Table.Traversal.{
  walk, fd_line, info_line, Caller, banner, between, traversal, traversal_reverse, print_table_info,
}

-- From `p` the links lead through `xs` to `end`.
abbrev Leads : (link : Ptr → Ptr) → (end p : Ptr) → List Ptr → Type 0
Leads link end p [] = p ≡ end
Leads link end p (x ∷ xs) = (p ≡ x) × Leads link end (link x) xs

module _ (next prev : Ptr → Ptr) (tail : Ptr) where
  Chain-forward : (b p : Ptr) (xs : List Ptr) → Chain next prev tail b p xs → Leads next tail p xs
  Chain-forward b p [] ch = ch.0
  Chain-forward b p (x ∷ xs) ch = (ch.0, Chain-forward x (next x) xs ch.2)

  -- `done` are the nodes behind `b`, on the way back to the header.
  Chain-back :
      (header b p : Ptr) (xs done : List Ptr)
      → Chain next prev tail b p xs
      → Leads prev header b done
      → Leads prev header (prev tail) (reverse_aux xs done)
  Chain-back header b p [] done ch back = rw ch.1 back
  Chain-back header b p (x ∷ xs) done ch back =
      Chain-back header x (next x) xs (x ∷ done) ch.2 (refl, rw ch.1 back)

module _ {A : Type 0} (show : ThreadInfo → A) (step : Ptr → Table → Run Ptr) (link : Ptr → Ptr)
    (end : Ptr) (t : Table) (follow : (p : Ptr) → t.live p ≡ true → step p t ≡ ok (link p) t) where
  walk-Leads :
      (fuel : ℕ) (p : Ptr) (xs : List Ptr)
      → length xs < fuel
      → All (λ x. t.live x ≡ true) xs
      → Avoids end xs
      → Leads link end p xs
      → walk show step end fuel p t ≡ ok (map (λ x. show (t.cell x)) xs) t
  unfolding walk
  walk-Leads zero p xs enough live out leads = absurd (omega arith)
  walk-Leads (suc fuel) p [] enough live out leads = rw leads (ground arith)
  walk-Leads (suc fuel) p (x ∷ xs) enough live out leads =
      subst (λ q. walk show step end (suc fuel) q t ≡ ok (map (λ x. show (t.cell x)) (x ∷ xs)) t)
        (sym leads.0)
        (rw (
          ne→== end x (λ e. out.0 (sym e)),
          if◌then◌else◌,
          load-live t x live.0,
          ◌>>=◌,
          follow x live.0,
          ◌>>=◌,
          walk-Leads fuel (link x) xs (omega arith) live.1 out.1 leads.1,
        ))

abbrev AllLive : Table → Ptr → Type 0
AllLive t x = t.live x ≡ true

All-reverse_aux :
    (P : Ptr → Type 0) (xs ys : List Ptr) → All P xs → All P ys → All P (reverse_aux xs ys)
All-reverse_aux P [] ys h k = k
All-reverse_aux P (x ∷ xs) ys h k = All-reverse_aux P xs (x ∷ ys) h.1 (h.0, k)

length-reverse_aux : (xs ys : List Ptr) → length (reverse_aux xs ys) ≡ length xs + length ys
length-reverse_aux [] ys = omega arith
length-reverse_aux (x ∷ xs) ys = omega (arith, length-reverse_aux xs (x ∷ ys))

-- On a table, with more fuel than entries, the loops end and change nothing. With
-- `__DEBUG_FDTABLE__`, without which the first two print nothing, `fdtable_traversal` prints every
-- entry once, from the newest to the oldest, `fdtable_traversal_reverse` the same entries the other
-- way round, and `print_table_info` those of the former between its two lines: unlike the look-ups,
-- none of them stops at an entry with descriptor 0 or -11.
pub traversals :
    (t : Table) (xs : List Ptr) (fuel : ℕ) (caller : Caller)
    → IsTable t xs
    → length xs < fuel
    → (traversal fuel t ≡ ok (map (λ x. fd_line (t.cell x)) xs) t)
      × (traversal_reverse fuel t ≡ ok (map (λ x. fd_line (t.cell x)) (reverse xs)) t)
      × (print_table_info fuel caller t
          ≡ ok (between (banner caller) (map (λ x. info_line (t.cell x)) xs)) t)
unfolding traversal traversal_reverse print_table_info
traversals t xs fuel caller v enough =
    let forward = Chain-forward t.next t.prev t.tail t.header (t.next t.header) xs v.chain in
    let back =
      Chain-back t.next t.prev t.tail t.header t.header (t.next t.header) xs [] v.chain refl in
    let first = get_next-live t t.header v.header_live in
    let last = get_prev-live t t.tail v.tail_live in
    let follow = λ (p : Ptr) (h : t.live p ≡ true). get_next-live t p h in
    (
      rw (first, ◌>>=◌)
          (walk-Leads fd_line get_next t.next t.tail t follow fuel _ xs enough v.nodes v.tail_out
            forward),
      rw (last, ◌>>=◌)
          (walk-Leads fd_line get_prev t.prev t.header t (get_prev-live t) fuel _ (reverse xs)
            (omega (arith, length-reverse_aux xs [])) (All-reverse_aux (AllLive t) xs [] v.nodes tt)
            (All-reverse_aux (λ x. x ≢ t.header) xs [] v.header_out tt) back),
      rw (
        first,
        ◌>>=◌,
        walk-Leads info_line get_next t.next t.tail t follow fuel _ xs enough v.nodes v.tail_out
            forward,
      ),
    )

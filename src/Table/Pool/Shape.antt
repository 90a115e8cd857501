-- ===== src/Table/Pool/Shape.antt =====
-- What makes the heap of fdtable.c a table and a pool side by side.
use core_partitioning.Base.{◌≡◌, ◌≢◌, sym, ◌∙◌, Bool, true, false, List, [], ◌∷◌, All, All-both}
use core_partitioning.Table.{Ptr, Table}
use core_partitioning.Table.Chain.{Chain, Avoids, Distinct, Chain-frame}

-- The pool holds the entries `ps`, the latest first. `of_table` tells the nodes of the table from those of
-- the pool.
pub record IsPool (of_table : Ptr → Bool) (t : Table) (h l : Ptr) (ps : List Ptr) : Type 0 where
  pub chain : Chain t.next t.prev l h (t.next h) ps
  pub nodes : All (λ x. t.live x ≡ true) ps
  pub distinct : Distinct ps
  pub header_out : Avoids h ps
  pub tail_out : Avoids l ps
  pub ends : h ≢ l
  pub header_live : t.live h ≡ true
  pub tail_live : t.live l ≡ true
  pub all_pool : All (λ x. of_table x ≡ false) ps
  pub header_pool : of_table h ≡ false
  pub tail_pool : of_table l ≡ false

pub record Owns (of_table : Ptr → Bool) (t : Table) (xs : List Ptr) : Type 0 where
  pub all_table : All (λ x. of_table x ≡ true) xs
  pub header_table : of_table t.header ≡ true
  pub tail_table : of_table t.tail ≡ true

-- The list from `p` gets another node before it: its links stay, but for the one back from `p`.
pub rebase :
    (next prev next2 prev2 : Ptr → Ptr) (tail b c p : Ptr) (xs : List Ptr)
    → Chain next prev tail b p xs
    → Distinct xs
    → Avoids tail xs
    → prev2 p ≡ c
    → All (λ y. next2 y ≡ next y) xs
    → All (λ y. y ≢ p → prev2 y ≡ prev y) xs
    → (tail ≢ p → prev2 tail ≡ prev tail)
    → Chain next2 prev2 tail c p xs
rebase next prev next2 prev2 tail b c p [] ch d out back same before last = (ch.0, rw (← ch.0) back)
rebase next prev next2 prev2 tail b c p (y ∷ ys) ch d out back same before last = (
  ch.0,
  rw (← ch.0) back,
  rw same.0 (
      Chain-frame next prev next2 prev2 tail y (next y) ys
        (All-both (λ z. next2 z ≡ next z) (λ z. prev2 z ≡ prev z) _ ys (λ z e f. (e, f)) same.1
          (All-both (λ z. z ≢ p → prev2 z ≡ prev z) (λ z. z ≢ y) _ ys
            (λ z f ne. f (λ e. ne (e ∙ ch.0))) before.1 d.0))
        (last (λ e. out.0 (sym (e ∙ ch.0)))) ch.2),
)

-- ===== src/Table/Delete/Links.antt =====
-- Taking a node out of the list of fdtable.c: its neighbours are linked to one another.
use core_partitioning.Base.{
  ◌≡◌, ◌≢◌, refl, sym, List, [], ◌∷◌, ◌++◌, arith, All, All-mono, All-both,
}
use mathlib.Core.Path.{subst}
use core_partitioning.Table.{Ptr, null, update}
use core_partitioning.Table.Chain.{Chain, Avoids, Distinct, Chain-frame, last_of, head_of}

pub All-split :
    {A : Type 0} (P : A → Type 0) (ys zs : List A) → All P (ys ++ zs) → All P ys × All P zs
All-split P [] zs h = (tt, h)
All-split P (y ∷ ys) zs h = let (a, b) = All-split P ys zs h.1 in ((h.0, a), b)

-- The list without its middle node.
pub All-without :
    (P : Ptr → Type 0) (x : Ptr) (ys zs : List Ptr) → All P (ys ++ x ∷ zs) → All P (ys ++ zs)
All-without P x [] zs h = h.1
All-without P x (y ∷ ys) zs h = (h.0, All-without P x ys zs h.1)

pub Distinct-without : (x : Ptr) (ys zs : List Ptr) → Distinct (ys ++ x ∷ zs) → Distinct (ys ++ zs)
Distinct-without x [] zs h = h.1
Distinct-without x (y ∷ ys) zs h =
    (All-without (λ q. q ≢ y) x ys zs h.0, Distinct-without x ys zs h.1)

pub Avoids-without : (x : Ptr) (ys zs : List Ptr) → Distinct (ys ++ x ∷ zs) → Avoids x (ys ++ zs)
Avoids-without x [] zs h = h.0
Avoids-without x (y ∷ ys) zs h =
    ((λ e. (All-split (λ q. q ≢ y) ys (x ∷ zs) h.0).1.0 (sym e)), Avoids-without x ys zs h.1)

pub All-at : (P : Ptr → Type 0) (x : Ptr) (ys zs : List Ptr) → All P (ys ++ x ∷ zs) → P x
All-at P x ys zs h = (All-split P ys (x ∷ zs) h).1.0

pub All-last_of : (P : Ptr → Type 0) (b : Ptr) (ys : List Ptr) → P b → All P ys → P (last_of b ys)
All-last_of P b [] h k = h
All-last_of P b (y ∷ ys) h k = All-last_of P y ys k.0 k.1

pub All-head_of :
    (P : Ptr → Type 0) (tail : Ptr) (zs : List Ptr) → P tail → All P zs → P (head_of tail zs)
All-head_of P tail [] h k = h
All-head_of P tail (z ∷ zs) h k = k.0

module _ (next prev : Ptr → Ptr) (tail x : Ptr) where
  abbrev pub next' : Ptr → Ptr
  next' = update (update next (prev x) (next x)) x null

  abbrev pub prev' : Ptr → Ptr
  prev' = update (update prev (next x) (prev x)) x null

  -- Behind the node.
  after :
      (zs : List Ptr)
      → Chain next prev tail x (next x) zs
      → Distinct (x ∷ zs)
      → Avoids (prev x) (x ∷ zs)
      → Avoids tail (x ∷ zs)
      → prev x ≢ tail
      → Chain next' prev' tail (prev x) (next x) zs
  after [] ch d pa ta ne = ground arith
  after (z ∷ zs) ch d pa ta ne = (
    ch.0,
    ground arith,
    subst (λ q. Chain next' prev' tail z q zs) (sym next_z)
        (Chain-frame next prev next' prev' tail z (next z) zs same (ground arith) ch.2),
  )
    where
      next_z : next' z ≡ next z
      next_z = ground arith

      spared : All (λ y. (y ≢ x) × (y ≢ prev x) × (y ≢ z)) zs
      spared =
          All-both (λ y. y ≢ x) (λ y. (y ≢ prev x) × (y ≢ z)) _ zs (λ y a b. (a, b.0, b.1)) d.0.1
            (All-both (λ y. y ≢ prev x) (λ y. y ≢ z) _ zs (λ y a b. (a, b)) pa.1.1 d.1.0)

      same : All (λ y. (next' y ≡ next y) × (prev' y ≡ prev y)) zs
      same = All-mono (λ y. (y ≢ x) × (y ≢ prev x) × (y ≢ z)) _ zs (λ y h. ground arith) spared

  -- What the link of the node before the list becomes.
  pub next_front :
      (b : Ptr) (ys zs : List Ptr)
      → Chain next prev tail b (next b) (ys ++ x ∷ zs)
      → Distinct (ys ++ x ∷ zs)
      → Avoids b (ys ++ x ∷ zs)
      → prev x ≡ last_of b ys
      → next' b ≡ head_of (next x) ys
  next_front b [] zs ch d ba pe = ground arith
  next_front b (w ∷ ws) zs ch d ba pe = ground (
    arith,
    All-last_of (λ q. q ≢ b) w ws ba.0 (All-split (λ q. q ≢ b) ws (x ∷ zs) ba.1).0,
    All-at (λ q. q ≢ b) x (w ∷ ws) zs ba,
  )

  pub unlinked :
      (b p : Ptr) (ys zs : List Ptr)
      → Chain next prev tail b p (ys ++ x ∷ zs)
      → Distinct (ys ++ x ∷ zs)
      → Avoids b (ys ++ x ∷ zs)
      → Avoids tail (ys ++ x ∷ zs)
      → b ≢ tail
      → prev x ≡ last_of b ys
      → next x ≡ head_of tail zs
      → Chain next' prev' tail b (head_of (next x) ys) (ys ++ zs)
  unlinked b p [] zs ch d ba ta ne pe xe =
      subst (λ q. Chain next' prev' tail q (next x) zs) pe
        (after zs ch.2 d (subst (λ q. Avoids q (x ∷ zs)) (sym pe) ba) ta (ground arith))
  unlinked b p (y ∷ ys) zs ch d ba ta ne pe xe = (
    refl,
    ground (arith, y_not_next, y_not_x),
    subst (λ q. Chain next' prev' tail y q (ys ++ zs)) (sym (next_front y ys zs ch.2 d.1 d.0 pe))
        (unlinked y (next y) ys zs ch.2 d.1 d.0 ta.1 ta.0 pe xe),
  )
    where
      y_not_x : x ≢ y
      y_not_x = All-at (λ q. q ≢ y) x ys zs d.0

      y_not_next : next x ≢ y
      y_not_next =
          subst (λ q. q ≢ y) (sym xe)
            (All-head_of (λ q. q ≢ y) tail zs (λ e. ta.0 (sym e))
              (All-split (λ q. q ≢ y) ys (x ∷ zs) d.0).1.1)

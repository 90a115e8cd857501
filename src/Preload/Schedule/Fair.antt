-- ===== src/Preload/Schedule/Fair.antt =====
-- Schedules of one call over the channel of ipc.c: what a call that has returned has done, and when it
-- returns.
use core_partitioning.Base.{
  ℕ, suc, ◌+◌, ◌≤◌, ◌<◌, ◌≡◌, ◌≢◌, ◌⊎◌, inl, inr, refl, sym, ap, ◌∙◌, Bool, true, false, not, arith,
  List, [], ◌∷◌, ◌++◌, length, All, dec_lt,
}
use core_partitioning.Preload.Request.{Request, Originals}
use core_partitioning.Preload.Thread.{Thread}
use core_partitioning.Preload.Channel.{Message}
use core_partitioning.Preload.Schedule.{
  returned, Exchange, turn, call_at, serve_at, run, begin_call,
}
use core_partitioning.Preload.Schedule.Turns.{
  is_returned, mover, state, finished, steady, state_first, state_last,
}

-- Both sides have a turn.
abbrev pub Has : Bool → List Bool → Type 0
Has who [] = ⊥
Has who (x ∷ xs) = (x ≡ who) ⊎ Has who xs

abbrev pub Both : List Bool → Type 0
Both xs = Has true xs × Has false xs

abbrev pub join : List (List Bool) → List Bool
join [] = []
join (b ∷ bs) = b ++ join bs

Both-Has : (b : Bool) (xs : List Bool) → Both xs → Has b xs
Both-Has true xs h = h.0
Both-Has false xs h = h.1

run-append :
    {W : Type 0} (o : Originals W) (xs ys : List Bool) (s : Exchange W)
    → run o (xs ++ ys) s ≡ run o ys (run o xs s)
unfolding run
run-append o [] ys s = refl
run-append o (x ∷ xs) ys s = run-append o xs ys (turn o x s)

same_or_not : (a b : Bool) → (a ≡ b) ⊎ (a ≡ not b)
same_or_not true true = inl refl
same_or_not true false = inr refl
same_or_not false true = inr refl
same_or_not false false = inl refl

not_itself : (b : Bool) → b ≢ not b
not_itself true e = cc
not_itself false e = cc

pub not_both : false ≢ true
not_both e = cc

module _ {W : Type 0} (o : Originals W) (r : Request) (buffer answer asked : Message) (t : Thread)
    (w : W) where
  abbrev pub at : ℕ → Exchange W
  at n = state o r buffer answer asked t w n

  abbrev pub who_moves : ℕ → Bool
  who_moves n = mover o r buffer answer asked t w n

  abbrev pub start : Exchange W
  start = begin_call r buffer answer asked t w

  abbrev pub last : Exchange W
  last = finished o r buffer answer asked t w

  pub moves : (n : ℕ) → n < 21 → turn o (who_moves n) (at n) ≡ at (suc n)
  moves n h = (steady o r buffer answer asked t w n h).0

  pub blocked : (n : ℕ) → n < 21 → turn o (not (who_moves n)) (at n) ≡ at n
  blocked n h = (steady o r buffer answer asked t w n h).1

  -- A turn goes on by one state if the mover has it, and does nothing if not.
  turn-at :
      (who : Bool) (n : ℕ)
      → n < 21
      → ((who ≡ who_moves n) × (turn o who (at n) ≡ at (suc n)))
        ⊎ ((who ≡ not (who_moves n)) × (turn o who (at n) ≡ at n))
  turn-at who n h = elim (same_or_not who (who_moves n)) [
    | inl e ↦ inl (e, ap (λ b. turn o b (at n)) e ∙ moves n h)
    | inr e ↦ inr (e, ap (λ b. turn o b (at n)) e ∙ blocked n h)
  ]

  turn_last : (who : Bool) → turn o who (at 21) ≡ at 21
  unfolding turn call_at serve_at state
  turn_last true = refl
  turn_last false = refl

  run_last : (xs : List Bool) → run o xs (at 21) ≡ at 21
  unfolding run
  run_last [] = refl
  run_last (x ∷ xs) = rw (turn_last x) (run_last xs)

  -- A schedule leads from a state to it or a later one.
  run-at :
      (xs : List Bool) (n : ℕ) → n ≤ 21 → (m : ℕ) × (n ≤ m) × (m ≤ 21) × (run o xs (at n) ≡ at m)
  unfolding run
  run-at [] n h = (n, omega arith, h, refl)
  run-at (x ∷ xs) n h = elim (dec_lt n 21) [
    | no e ↦
        let f : n ≡ 21 = omega arith in
        (21, h, omega arith, ap (λ k. run o (x ∷ xs) (at k)) f ∙ run_last (x ∷ xs))
    | yes lt ↦ elim (turn-at x n lt) [
      | inl (_, e) ↦
          let (m, le, top, same) = run-at xs (suc n) (omega arith) in
          (m, omega arith, top, rw e same)
      | inr (_, e) ↦ let (m, le, top, same) = run-at xs n h in (m, le, top, rw e same)
    ]
  ]

  -- One in which the mover has a turn leads to a later one.
  run_on :
      (xs : List Bool) (n : ℕ)
      → n < 21
      → Has (who_moves n) xs
      → (m : ℕ) × (n < m) × (m ≤ 21) × (run o xs (at n) ≡ at m)
  unfolding run
  run_on [] n h has = absurd has
  run_on (x ∷ xs) n h has = elim (turn-at x n h) [
    | inl (_, e) ↦
        let (m, le, top, same) = run-at xs (suc n) (omega arith) in (m, le, top, rw e same)
    | inr (ne, e) ↦ elim has [
      | inl eq ↦ absurd (not_itself (who_moves n) (sym eq ∙ ne))
      | inr later ↦ let (m, lt, top, same) = run_on xs n h later in (m, lt, top, rw e same)
    ]
  ]

  -- Each block with a turn of both sides leads on by a state, until the last.
  run_blocks :
      (bs : List (List Bool)) (n : ℕ)
      → All Both bs
      → n ≤ 21
      → 21 ≤ n + length bs
      → run o (join bs) (at n) ≡ at 21
  unfolding run
  run_blocks [] n h top enough = ap at (omega arith)
  run_blocks (b ∷ bs) n h top enough = elim (dec_lt n 21) [
    | yes lt ↦
        let (m, on, top', same) = run_on b n lt (Both-Has (who_moves n) b h.0) in
        rw (run-append o b (join bs) (at n), same) (run_blocks bs m h.1 top' (omega arith))
    | no e ↦
        let (m, on, top', same) = run-at b n top in
        rw (run-append o b (join bs) (at n), same) (run_blocks bs m h.1 top' (omega arith))
  ]

  -- Whatever the schedule of one call, if the call has returned, then the thread made one round with
  -- its request, the caller has the reply of that round, and the channel is idle again.
  pub returned-last : (xs : List Bool) → (run o xs start).caller ≡ returned → run o xs start ≡ last
  returned-last xs h =
      let first = state_first o r buffer answer asked t w in
      let (m, le, top, same) = run-at xs 0 (omega arith) in
      let to_m : run o xs start ≡ at m = ap (run o xs) (sym first) ∙ same in
      elim (dec_lt m 21) [
        | yes lt ↦ absurd (
            not_both (
              sym (steady o r buffer answer asked t w m lt).2
              ∙ ap (λ s. is_returned s.caller) (sym to_m)
              ∙ ap is_returned h))
        | no e ↦ to_m ∙ ap at (omega arith) ∙ state_last o r buffer answer asked t w
      ]

  -- A call returns on every schedule that has 21 blocks in which both sides have a turn: the thread
  -- makes one round with its request, and the caller has the reply of that round.
  pub fair-last :
      (bs : List (List Bool)) → All Both bs → 21 ≤ length bs → run o (join bs) start ≡ last
  fair-last bs h enough =
      rw (← state_first o r buffer answer asked t w)
        (run_blocks bs 0 h (omega arith) (omega arith) ∙ state_last o r buffer answer asked t w)

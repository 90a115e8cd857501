-- ===== src/Preload/Schedule/Alone.antt =====
-- A call over the channel of ipc.c whose thread has gone.
use core_partitioning.Base.{
  ℕ, zero, suc, ◌≤◌, ◌<◌, ◌≡◌, ◌≢◌, refl, sym, ap, ◌∙◌, Bool, true, arith, List, [], ◌∷◌, dec_lt,
}
use core_partitioning.Preload.Request.{Request, Originals}
use core_partitioning.Preload.Thread.{Thread}
use core_partitioning.Preload.Channel.{Message}
use core_partitioning.Preload.Schedule.{returned, turn, run}
use core_partitioning.Preload.Schedule.Turns.{is_returned, mover, steady, state_first}
use core_partitioning.Preload.Schedule.Fair.{start, at, who_moves, moves, blocked, not_both}

-- Turns of the caller only.
abbrev pub alone : ℕ → List Bool
alone zero = []
alone (suc n) = true ∷ alone n

module _ {W : Type 0} (o : Originals W) (r : Request) (buffer answer asked : Message) (t : Thread)
    (w : W) where
  caller_first : (k : ℕ) → k < 5 → who_moves o r buffer answer asked t w k ≡ true
  unfolding mover
  caller_first zero h = refl
  caller_first (suc zero) h = refl
  caller_first (suc (suc zero)) h = refl
  caller_first (suc (suc (suc zero))) h = refl
  caller_first (suc (suc (suc (suc zero)))) h = refl
  caller_first (suc (suc (suc (suc (suc k))))) h = absurd (omega arith)

  stays : turn o true (at o r buffer answer asked t w 5) ≡ at o r buffer answer asked t w 5
  unfolding mover
  stays = blocked o r buffer answer asked t w 5 (omega arith)

  run-alone :
      (n k : ℕ)
      → k ≤ 5
      → (m : ℕ) × (m ≤ 5)
        × (run o (alone n) (at o r buffer answer asked t w k) ≡ at o r buffer answer asked t w m)
  unfolding run
  run-alone zero k h = (k, h, refl)
  run-alone (suc n) k h = elim (dec_lt k 5) [
    | yes lt ↦
        let (m, le, same) = run-alone n (suc k) (omega arith) in
        (
          m,
          le,
          ap (run o (alone n)) (
                ap (λ b. turn o b (at o r buffer answer asked t w k)) (sym (caller_first k lt))
                ∙ moves o r buffer answer asked t w k (omega arith))
              ∙ same,
        )
    | no ge ↦
        let five : k ≡ 5 = omega arith in
        let (m, le, same) = run-alone n 5 (omega arith) in
        (
          m,
          le,
          ap (λ j. run o (alone n) (turn o true (at o r buffer answer asked t w j))) five
              ∙ ap (run o (alone n)) stays
              ∙ same,
        )
  ]

  -- If the descriptor's thread has no turn, the call does not return, however long it waits.
  pub alone_waits :
      (n : ℕ) → (run o (alone n) (start o r buffer answer asked t w)).caller ≢ returned
  alone_waits n back =
      let (m, le, same) = run-alone n 0 (omega arith) in
      not_both (
        sym (steady o r buffer answer asked t w m (omega arith)).2
        ∙ ap (λ s. is_returned s.caller)
            (sym (ap (run o (alone n)) (sym (state_first o r buffer answer asked t w)) ∙ same))
        ∙ ap is_returned back)

-- ===== src/Kernel/Single/Runs.antt =====
-- Whole ticks of the SINGLE mode of simple_proc_ktimer/simple_proc.c, and runs of them.
use core_partitioning.Base.{
  ℕ, ◌+◌, ◌-◌, ◌≤◌, ◌<◌, ◌≡◌, Option, some, List, [], ◌∷◌, arith, length, get_elem?, All, Returns,
  Returns-bind, ◌>>=◌, ◌==◌, ne→==, ◌⊎◌, Bool-cases, inl, inr, true,
}
use native.Mathlib.Nat.{zero-add, mod-eq_of_lt}
use core_partitioning.Kernel.Util.{blk_queues, net_queues, Queue, blk, net, Hint, Counts}
use core_partitioning.Kernel.Single.{
  Single, blk_end, net_start, spread_over, blk_turn, net_turn, tick, init,
}
use core_partitioning.Kernel.Single.Invariant.{
  IsPartition, Near, Adjusted, adjust_blk-Adjusted, adjust_net-Adjusted, init-IsPartition,
}
use core_partitioning.Kernel.Single.Spread.{
  Within, length-spread, spread-Counts, spread-Within, get_elem?-spread,
}

-- One hint for each queue in order, and the cores of the group are all served.
pub record Spread (q : Queue) (first cores queues : ℕ) (hints : List Hint) : Type 0 where
  pub all : length hints ≡ queues
  pub indices : Counts 0 hints
  pub within : All (Within q first cores) hints
  pub served :
      (c : ℕ)
      → c < cores
      → get_elem? hints c ≡ some (record { queue = q; index = c; core = c + first })

spread_over-Spread :
    (q : Queue) (cores first queues : ℕ)
    → 0 < cores
    → cores ≤ queues
    → Returns (Spread q first cores queues) (spread_over q cores first queues)
unfolding spread_over
spread_over-Spread q cores first queues h k = rw (ne→== cores 0 (omega arith)) (record {
  all = length-spread q cores first queues 0;
  indices = spread-Counts q cores first queues 0;
  within = spread-Within q cores first h queues 0;
  served = λ c lt.
      rw (get_elem?-spread q cores first queues 0 c (omega arith), zero-add, mod-eq_of_lt lt);
})

-- What one tick does from a state `s` of known turn.
pub record SingleTick (s : Single) (r : Single × List Hint) : Type 0 where
  pub partition : IsPartition r.0
  pub blk_near : Near s.blk_start r.0.blk_start
  pub net_near : Near s.net_end r.0.net_end
  pub turn_taken : r.0.dynamic_turn + s.dynamic_turn ≡ 1
  pub hints :
      ((s.dynamic_turn ≡ 0) × Spread blk r.0.blk_start (blk_end + 1 - r.0.blk_start) blk_queues r.1)
      ⊎ ((s.dynamic_turn ≡ 1) × Spread net net_start (r.0.net_end + 1 - net_start) net_queues r.1)

module _ (p : ℕ → ℕ) (s : Single) (v : IsPartition s) where
  blk_turn-SingleTick : s.dynamic_turn ≡ 0 → Returns (SingleTick s) (blk_turn p s)
  unfolding blk_turn
  blk_turn-SingleTick e =
      Returns-bind (Adjusted s) (SingleTick s) _ _ (adjust_blk-Adjusted s v _ _) λ s' a.
        Returns-bind (Spread blk s'.blk_start _ blk_queues) (SingleTick s) _ _
          (spread_over-Spread blk _ s'.blk_start blk_queues (omega (arith, a.partition))
            (omega (arith, a.partition, a.blk_near)))
          λ hints spread. record {
            partition = omega (arith, a.partition);
            blk_near = a.blk_near;
            net_near = a.net_near;
            turn_taken = omega arith;
            hints = inl (e, spread);
          }

  net_turn-SingleTick : s.dynamic_turn ≡ 1 → Returns (SingleTick s) (net_turn p s)
  unfolding net_turn
  net_turn-SingleTick e =
      Returns-bind (Adjusted s) (SingleTick s) _ _ (adjust_net-Adjusted s v _ _ _) λ s' a.
        Returns-bind (Spread net net_start _ net_queues) (SingleTick s) _ _
          (spread_over-Spread net _ net_start net_queues (omega (arith, a.partition))
            (omega (arith, a.partition)))
          λ hints spread. record {
            partition = omega (arith, a.partition);
            blk_near = a.blk_near;
            net_near = a.net_near;
            turn_taken = omega arith;
            hints = inr (e, spread);
          }

  -- From a well-formed partition a tick never faults. It returns a well-formed partition, moves
  -- each boundary by one core at most, passes the turn on, and gives one hint for each queue of the
  -- group whose turn it was, in the order of the queues, to a core of that group's new range, so
  -- that every core of the range is hinted for some queue.
  pub tick-SingleTick : Returns (SingleTick s) (tick p s)
  unfolding tick
  tick-SingleTick = elim (Bool-cases (s.dynamic_turn == 0)) [
    | inl e ↦ rw e (blk_turn-SingleTick (ground arith))
    | inr e ↦
        let f : (s.dynamic_turn == 1) ≡ true = ground (arith, v.turn_known) in
        rw (e, f) (net_turn-SingleTick (ground arith))
  ]

-- A tick a second, each with the loads that were measured for it.
unfoldable pub run : List (ℕ → ℕ) → Single → Option Single
run [] s = some s
run (p ∷ ps) s = tick p s >>= λ r. run ps r.0

run_from-IsPartition :
    (ps : List (ℕ → ℕ)) (s : Single) → IsPartition s → Returns IsPartition (run ps s)
unfolding run
run_from-IsPartition [] s v = v
run_from-IsPartition (p ∷ ps) s v =
    Returns-bind (SingleTick s) IsPartition _ _ (tick-SingleTick p s v)
      λ r t. run_from-IsPartition ps r.0 t.partition

-- From the module's initial partition no sequence of measured loads makes a tick fault, and the
-- partition is well formed after all of them.
pub run-IsPartition : (ps : List (ℕ → ℕ)) → Returns IsPartition (run ps init)
run-IsPartition ps = run_from-IsPartition ps init init-IsPartition

-- ===== src/Kernel/Sockets/Ticks.antt =====
-- Whole ticks of the modes CROSS and PER of simple_proc_ktimer/simple_proc.c, and runs of them.
use core_partitioning.Base.{
  ℕ, ◌+◌, ◌*◌, ◌≤◌, ◌≡◌, ◌⊎◌, Option, some, List, [], ◌∷◌, arith, Returns, Returns-bind, All, ◌>>=◌,
  Bool-cases, inl, inr, ◌==◌, true, length,
}
use core_partitioning.Kernel.Util.{per_core_pos, Hint, Counts, blk, net, blk_queues, net_queues}
use core_partitioning.Kernel.Walk.{OnSocket, walk-OnSocket, length-walk, walk-Counts}
use core_partitioning.Kernel.Sockets.{
  Averages, Pair, measure_loop, adjust_loop, Sockets, from_last, blk_hints, net_hints, redistribute,
  mean, change_sockets, Beyond, tick_cross, tick_per, init, number_of_sockets,
}
use core_partitioning.Kernel.Sockets.Partition.{
  IsPartition, IsLayout, adjust_loop-IsLayout, measure_loop-total, IsPartition-at,
}

pub record IsState (s : Sockets) : Type 0 where
  pub layout : IsLayout s.per
  pub sockets : (1 ≤ s.socket_number) × (s.socket_number ≤ number_of_sockets)
  pub turn_known : s.dynamic_turn ≤ 1

-- A hint for a block queue, to a core of the block group of a socket that takes part.
abbrev pub BlkHint : Sockets → Hint → Type 0
BlkHint s =
    OnSocket blk (λ k. (from_last s.per k).blk_start) (λ k. (from_last s.per k).blk_end)
      s.socket_number

abbrev pub NetHint : Sockets → Hint → Type 0
NetHint s =
    OnSocket net (λ k. (from_last s.per k).net_start) (λ k. (from_last s.per k).net_end)
      s.socket_number

-- What a tick that began in turn `turn` leaves.
pub record Ticked (turn : ℕ) (r : Sockets × List Hint) : Type 0 where
  pub state : IsState r.0
  pub turn_taken : r.0.dynamic_turn + turn ≡ 1
  pub hinted :
      ((turn ≡ 0) × (length r.1 ≡ blk_queues) × Counts 0 r.1 × All (BlkHint r.0) r.1)
      ⊎ ((turn ≡ 1) × (length r.1 ≡ net_queues) × Counts 0 r.1 × All (NetHint r.0) r.1)

module _ (s : Sockets) (v : IsState s) where
  blk_hints-BlkHint : All (BlkHint s) (blk_hints s.per s.socket_number)
  unfolding blk_hints
  blk_hints-BlkHint =
      walk-OnSocket blk (λ k. (from_last s.per k).blk_start) (λ k. (from_last s.per k).blk_end)
        s.socket_number v.sockets.0 (λ k. (at_k k).blk_some) blk_queues 0 0 0 v.sockets.0
        (omega (arith, v))
    where
      at_k : (k : ℕ) → IsPartition (from_last s.per k)
      at_k k = IsPartition-at s.per v.layout _

  net_hints-NetHint : All (NetHint s) (net_hints s.per s.socket_number)
  unfolding net_hints
  net_hints-NetHint =
      walk-OnSocket net (λ k. (from_last s.per k).net_start) (λ k. (from_last s.per k).net_end)
        s.socket_number v.sockets.0 (λ k. (at_k k).net_some) net_queues 0 0 0 v.sockets.0
        (omega (arith, v))
    where
      at_k : (k : ℕ) → IsPartition (from_last s.per k)
      at_k k = IsPartition-at s.per v.layout _

  length-blk_hints : length (blk_hints s.per s.socket_number) ≡ blk_queues
  unfolding blk_hints
  length-blk_hints =
      length-walk blk (λ k. (from_last s.per k).blk_start) (λ k. (from_last s.per k).blk_end)
        s.socket_number _ blk_queues 0 0 0

  length-net_hints : length (net_hints s.per s.socket_number) ≡ net_queues
  unfolding net_hints
  length-net_hints =
      length-walk net (λ k. (from_last s.per k).net_start) (λ k. (from_last s.per k).net_end)
        s.socket_number _ net_queues 0 0 0

  blk_hints-Counts : Counts 0 (blk_hints s.per s.socket_number)
  unfolding blk_hints
  blk_hints-Counts =
      walk-Counts blk (λ k. (from_last s.per k).blk_start) (λ k. (from_last s.per k).blk_end)
        s.socket_number _ blk_queues 0 0 0

  net_hints-Counts : Counts 0 (net_hints s.per s.socket_number)
  unfolding net_hints
  net_hints-Counts =
      walk-Counts net (λ k. (from_last s.per k).net_start) (λ k. (from_last s.per k).net_end)
        s.socket_number _ net_queues 0 0 0

  redistribute-Ticked : Ticked s.dynamic_turn (redistribute s)
  unfolding redistribute
  redistribute-Ticked = elim (Bool-cases (s.dynamic_turn == 0)) [
    | inl e ↦ rw e (record {
      state = record { layout = v.layout; sockets = v.sockets; turn_known = omega arith };
      turn_taken = ground arith;
      hinted = inl (ground arith, length-blk_hints, blk_hints-Counts, blk_hints-BlkHint);
    })
    | inr e ↦
        let f : (s.dynamic_turn == 1) ≡ true = ground (arith, v.turn_known) in
        rw (e, f)
          (record {
            state = record { layout = v.layout; sockets = v.sockets; turn_known = omega arith };
            turn_taken = ground arith;
            hinted = inr (ground arith, length-net_hints, net_hints-Counts, net_hints-NetHint);
          })
  ]

redistribute_number : (s : Sockets) → (redistribute s).0.socket_number ≡ s.socket_number
unfolding redistribute
redistribute_number s = ground arith

change_sockets_range :
    (avg n : ℕ)
    → 1 ≤ n
    → n ≤ number_of_sockets
    → (1 ≤ change_sockets avg n) × (change_sockets avg n ≤ number_of_sockets)
unfolding change_sockets
change_sockets_range avg n h k = ground arith

mean-total : (sum n : ℕ) → 1 ≤ n → Returns (λ _. Unit) (mean sum n)
unfolding mean
mean-total sum n h = rw (per_core_pos sum (n * 3) (omega arith)) tt

adjusted-IsState :
    (s : Sockets) (avgs : Pair Averages) (beyond : Averages) (n sum : ℕ)
    → IsState s
    → (1 ≤ n) × (n ≤ number_of_sockets)
    → IsState (record {
      per = adjust_loop s.dynamic_turn avgs beyond n 1 s.per;
      avgs = avgs;
      socket_number = n;
      dynamic_turn = s.dynamic_turn;
      sum_avg = sum;
    })
adjusted-IsState s avgs beyond n sum v h = record {
  layout = adjust_loop-IsLayout s.dynamic_turn avgs beyond n 1 s.per v.layout;
  sockets = h;
  turn_known = v.turn_known;
}

module _ (p : ℕ → ℕ) (b : Beyond) (s : Sockets) (v : IsState s) where
  measured :
      (beyond : Averages) (n : ℕ) (avgs : Pair Averages)
      → Returns (λ _. Unit) (measure_loop p beyond s.per n 1 avgs 0)
  measured beyond n avgs = measure_loop-total p beyond s.per v.layout n 1 avgs 0

  -- Whatever values that are not negative lie past the arrays, a tick in CROSS mode never faults
  -- from a well-formed state. It keeps the state well formed, with one or two sockets taking part,
  -- passes the turn on, and gives each queue of the group whose turn it was one hint, in the order
  -- of the queues, to a core of that group on a socket that takes part.
  pub tick_cross-Ticked : Returns (Ticked s.dynamic_turn) (tick_cross p b s)
  unfolding tick_cross
  tick_cross-Ticked =
      Returns-bind (λ _. Unit {0}) (Ticked s.dynamic_turn) _ _
        (measured b.first s.socket_number s.avgs)
        λ r _.
          Returns-bind (λ _. Unit {0}) (Ticked s.dynamic_turn) _ _
            (mean-total r.1 s.socket_number v.sockets.0)
            λ avg _.
              let range = change_sockets_range avg s.socket_number v.sockets.0 v.sockets.1 in
              Returns-bind (λ _. Unit {0}) (Ticked s.dynamic_turn) _ _
                (measured b.second (change_sockets avg s.socket_number) r.0)
                λ r' _.
                  Returns-bind (λ _. Unit {0}) (Ticked s.dynamic_turn) _ _
                    (mean-total r'.1 (change_sockets avg s.socket_number) range.0)
                    λ avg' _.
                      redistribute-Ticked _ (adjusted-IsState s r'.0 b.watched _ avg' v range)

  -- Whatever values that are not negative lie past the arrays, a tick in PER mode never faults from
  -- a well-formed state. It keeps the state well formed, leaves both sockets in use, passes the
  -- turn on, and gives each queue of the group whose turn it was one hint, in the order of the
  -- queues, to a core of that group on one of the sockets.
  pub tick_per-Ticked :
      Returns
        (λ r. Ticked s.dynamic_turn r × (r.0.socket_number ≡ number_of_sockets))
        (tick_per p b s)
  unfolding tick_per
  tick_per-Ticked =
      Returns-bind (λ _. Unit {0}) PerTicked _ _ (measured b.first number_of_sockets s.avgs)
        λ r _.
          Returns-bind (λ _. Unit {0}) PerTicked _ _
            (mean-total r.1 number_of_sockets (omega arith))
            λ avg _.
              let range : (1 ≤ number_of_sockets) × (number_of_sockets ≤ number_of_sockets) =
                omega arith in
              (
                redistribute-Ticked _
                    (adjusted-IsState s r.0 b.watched number_of_sockets avg v range),
                redistribute_number _,
              )
    where
      PerTicked : Sockets × List Hint → Type 0
      PerTicked r = Ticked s.dynamic_turn r × (r.0.socket_number ≡ number_of_sockets)

-- A tick a second in CROSS mode, each with its measured loads and stray reads.
unfoldable pub run_cross : List ((ℕ → ℕ) × Beyond) → Sockets → Option Sockets
run_cross [] s = some s
run_cross ((p, b) ∷ ps) s = tick_cross p b s >>= λ r. run_cross ps r.0

run_cross_from :
    (ps : List ((ℕ → ℕ) × Beyond)) (s : Sockets) → IsState s → Returns IsState (run_cross ps s)
unfolding run_cross
run_cross_from [] s v = v
run_cross_from ((p, b) ∷ ps) s v =
    Returns-bind (Ticked s.dynamic_turn) IsState _ _ (tick_cross-Ticked p b s v)
      λ r t. run_cross_from ps r.0 t.state

pub init-IsState : IsState init
unfolding init
init-IsState = omega arith

-- From the module's initial state no sequence of measured loads makes a tick in CROSS mode fault,
-- and the state is well formed after all of them.
pub run_cross-IsState : (ps : List ((ℕ → ℕ) × Beyond)) → Returns IsState (run_cross ps init)
run_cross-IsState ps = run_cross_from ps init init-IsState

-- ===== src/Kernel/App/Ticks.antt =====
-- Whole ticks of the APP mode of simple_proc_ktimer/simple_proc.c, and runs of them.
use core_partitioning.Base.{
  ◌≢◌, ℕ, zero, suc, ◌+◌, ◌≤◌, ◌<◌, ◌≡◌, Bool, true, false, ◌&&◌, ◌||◌, Option, some, List, [], ◌∷◌,
  ◌++◌, arith, ◌==◌, if◌then◌else◌, ◌>>=◌, Returns, Returns-bind, All,
}
use core_partitioning.Kernel.Util.{per_core, Hint, net, net_queues}
use core_partitioning.Kernel.Walk.{OnSocket, walk-OnSocket}
use core_partitioning.Kernel.App.{
  Socket, Row, entry, core_counter, util_row, adjust, App, from_last, sets_blk, net_hints,
  blk_hints, number_of_sockets, tick, init,
}
use core_partitioning.Kernel.App.Choice.{chosen, entry-le-max, min-le-entry}
use core_partitioning.Kernel.App.Partition.{
  IsPartition, Kept, shift-Kept, moves, one_if, shift-Balance,
}

module _ (s : Socket) (v : IsPartition s) where
  util_row-total : (p : ℕ → ℕ) → Returns (λ _. Unit) (util_row p s)
  unfolding util_row core_counter per_core
  util_row-total p = ground arith

  -- The groups that exchange, whatever the loads, are two different ones, and the exchange keeps the
  -- partition.
  pub adjust-Kept : (u : Row) → Kept s (adjust u s).socket
  unfolding adjust
  adjust-Kept u =
      let c = chosen (core_counter s) u in shift-Kept s v u _ _ c.distinct c.max_small c.min_small

  -- In a partitioned socket one adjustment moves one core at most: a group `max` that no group has more
  -- load than gains it and another, `min`, loses it, if that one has two cores or more and its load
  -- lies more than T_CHANGE below; the other groups keep their counts. If any group but `max` has two
  -- cores or more, then `min` is a least loaded one of these.
  pub adjust-counts :
      (u : Row) (g : ℕ)
      → g < 4
      → ((h : ℕ) → h < 4 → entry u h ≤ entry u (adjust u s).max)
        × ((adjust u s).max ≢ (adjust u s).min)
        × ((h : ℕ)
            → h < 4
            → h ≢ (adjust u s).max
            → 2 ≤ entry (core_counter s) h
            → (2 ≤ entry (core_counter s) (adjust u s).min)
              × (entry u (adjust u s).min ≤ entry u h))
        × (entry (core_counter (adjust u s).socket) g
              + one_if (
                  moves (core_counter s) u (adjust u s).max (adjust u s).min
                  && g == (adjust u s).min)
            ≡ entry (core_counter s) g
              + one_if (
                  moves (core_counter s) u (adjust u s).max (adjust u s).min
                  && g == (adjust u s).max))
  unfolding adjust
  adjust-counts u g h =
      let c = chosen (core_counter s) u in
      (
        entry-le-max (core_counter s) u,
        c.distinct,
        min-le-entry (core_counter s) u,
        shift-Balance s v u _ _ c.distinct c.max_small c.min_small g h,
      )

  adjust-small : (u : Row) → ((adjust u s).max < 4) × ((adjust u s).min < 4)
  unfolding adjust
  adjust-small u = let c = chosen (core_counter s) u in (c.max_small, c.min_small)

  -- In a partitioned socket an adjustment never sets `blk_flag`, whatever the loads: the source tests
  -- for group 4, and the block group is 3.
  pub adjust_keeps_blk : (u : Row) → sets_blk (adjust u s) ≡ false
  adjust_keeps_blk u = ground (arith, adjust-small u)

-- Both sockets are partitioned, each within its ten cores.
pub record IsLayout (a : App) : Type 0 where
  pub low : IsPartition a.low
  pub high : IsPartition a.high
  pub low_range : (a.low.net_start ≡ 0) × (a.low.blk_end ≡ 9)
  pub high_range : (a.high.net_start ≡ 10) × (a.high.blk_end ≡ 19)

abbrev pub net_first : App → ℕ → ℕ
net_first a k = (from_last a k).net_start

abbrev pub net_last : App → ℕ → ℕ
net_last a k = (from_last a k).net_end

-- A hint for a net queue, to a core of the net queue group of one of the sockets.
abbrev pub NetHint : App → Hint → Type 0
NetHint a = OnSocket net (net_first a) (net_last a) number_of_sockets

pub record AppTick (r : App × List Hint) : Type 0 where
  pub layout : IsLayout r.0
  pub hints : All (NetHint r.0) r.1

net_some : (a : App) → IsLayout a → (k : ℕ) → net_first a k ≤ net_last a k
net_some a l zero = l.high.net_some
net_some a l (suc k) = l.low.net_some

net_hints-NetHint : (a : App) → IsLayout a → All (NetHint a) (net_hints a)
unfolding net_hints
net_hints-NetHint a l =
    walk-OnSocket net (net_first a) (net_last a) number_of_sockets (omega arith) (net_some a l)
      net_queues 0 0 0 (omega arith) (omega (arith, l.high))

module _ (a : App) (l : IsLayout a) (high low : Row) where
  abbrev next : App
  next = record { low = (adjust low a.low).socket; high = (adjust high a.high).socket }

  next-IsLayout : IsLayout next
  next-IsLayout = omega (arith, l, adjust-Kept a.low l.low low, adjust-Kept a.high l.high high)

  hints-NetHint :
      (b : Bool)
      → All (NetHint next) (
          (if sets_blk (adjust high a.high) || sets_blk (adjust low a.low)
            then blk_hints next
            else [])
          ++ (if b then net_hints next else []))
  hints-NetHint b =
      rw (adjust_keeps_blk a.high l.high high, adjust_keeps_blk a.low l.low low) (choose b)
    where
      choose : (b : Bool) → All (NetHint next) (if b then net_hints next else [])
      choose true = net_hints-NetHint next next-IsLayout
      choose false = tt

-- From a well-formed layout a tick never faults. It keeps the layout, whose application group goes on
-- overlapping the block group by two cores, and every hint it gives sends a net queue to a core of a
-- net queue group of the new layout: no block queue is ever redistributed.
pub tick-AppTick : (p : ℕ → ℕ) (a : App) → IsLayout a → Returns AppTick (tick p a)
unfolding tick
tick-AppTick p a l =
    Returns-bind (λ _. Unit {0}) AppTick _ _ (util_row-total a.high l.high p)
      λ high _.
        Returns-bind (λ _. Unit {0}) AppTick _ _ (util_row-total a.low l.low p)
          λ low _. record {
            layout = next-IsLayout a l high low;
            hints = hints-NetHint a l high low _;
          }

unfoldable pub run : List (ℕ → ℕ) → App → Option App
run [] a = some a
run (p ∷ ps) a = tick p a >>= λ r. run ps r.0

run_from-IsLayout : (ps : List (ℕ → ℕ)) (a : App) → IsLayout a → Returns IsLayout (run ps a)
unfolding run
run_from-IsLayout [] a l = l
run_from-IsLayout (p ∷ ps) a l =
    Returns-bind AppTick IsLayout _ _ (tick-AppTick p a l) λ r t. run_from-IsLayout ps r.0 t.layout

pub init-IsLayout : IsLayout init
unfolding init
init-IsLayout = omega arith

-- From the module's initial layout no sequence of measured loads makes a tick fault, and after all
-- of them each socket is partitioned within its ten cores, the application group overlapping the
-- block group by two cores.
pub run-IsLayout : (ps : List (ℕ → ℕ)) → Returns IsLayout (run ps init)
run-IsLayout ps = run_from-IsLayout ps init init-IsLayout

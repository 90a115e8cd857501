-- ===== src/Kernel/Single.antt =====
-- The SINGLE mode of simple_proc_ktimer/simple_proc.c: on socket 1 the cores 10 to 19 are split,
-- from `net_start` up, into net queue cores, net system call cores and block queue cores. A tick
-- takes the turn of one queue group, moves its boundary by the measured load, and spreads the
-- queues of the group over its cores.
pub mod Invariant
pub mod Spread
pub mod Runs
pub mod Response
use core_partitioning.Base.{
  ℕ, zero, suc, ◌+◌, ◌-◌, ◌*◌, ◌%◌, ◌&&◌, Option, none, some, List, [], ◌∷◌, ltb, ◌==◌, ◌!=◌,
  if◌then◌else◌, ◌>>=◌,
}
use core_partitioning.Kernel.Util.{
  t_high, t_low, blk_queues, net_queues, load, per_core, Queue, blk, net, Hint,
}

abbrev pub blk_end : ℕ
blk_end = 19

abbrev pub net_start : ℕ
net_start = 10

-- The globals that the mode keeps from one tick to the next.
pub record Single : Type 0 where
  pub blk_start : ℕ
  pub net_end : ℕ
  pub dynamic_turn : ℕ  -- 0 for blk, 1 for net

abbrev pub blk_cores : Single → ℕ
blk_cores s = blk_end + 1 - s.blk_start

abbrev pub net_cores : Single → ℕ
net_cores s = s.net_end + 1 - net_start

abbrev pub sys_cores : Single → ℕ
sys_cores s = s.blk_start - s.net_end - 1

-- The turn of the block queues. The test `blk_start - net_end > 3` is written without `-`.
unfoldable pub adjust_blk : (blk_queue_util net_sys_util : ℕ) → Single → Option Single
adjust_blk blk_util sys_util s =
    if ltb (t_high * blk_cores s) blk_util
    then (do
      b ← per_core blk_util (blk_cores s)
      n ← per_core sys_util (sys_cores s)
      if ltb n b
          then some (
              if ltb (s.net_end + 3) s.blk_start
              then record s { blk_start = s.blk_start - 1 }
              else s)
          else (do
            w ← per_core sys_util (s.blk_start - net_start - 1)
            some (
                if ltb b w && s.blk_start != blk_end
                then record s { blk_start = s.blk_start + 1 }
                else s)))
    else some (
        if ltb blk_util (t_low * blk_cores s) && blk_end != s.blk_start
        then record s { blk_start = s.blk_start + 1 }
        else s)

-- The turn of the net queues, above the high mark.
unfoldable pub grow_net : (net_queue_util net_sys_util blk_queue_util : ℕ) → Single → Option Single
grow_net net_util sys_util blk_util s = do
  q ← per_core net_util (net_cores s)
  n ← per_core sys_util (sys_cores s)
  if ltb n q
      then (if ltb (s.net_end + 3) s.blk_start
          then some (record s { net_end = s.net_end + 1 })
          else (do
            b ← per_core blk_util (blk_cores s)
            some (
                if ltb b n && blk_end != s.blk_start
                then record s { blk_start = s.blk_start + 1; net_end = s.net_end + 1 }
                else s)))
      else some
          (if ltb q n && net_start != s.net_end then record s { net_end = s.net_end - 1 } else s)

-- Below the low mark.
unfoldable pub shrink_net : (net_queue_util net_sys_util : ℕ) → Single → Option Single
shrink_net net_util sys_util s = do
  q ← per_core net_util (net_cores s)
  n ← per_core sys_util (sys_cores s)
  some (if ltb q n && net_start != s.net_end then record s { net_end = s.net_end - 1 } else s)

unfoldable pub adjust_net :
    (net_queue_util net_sys_util blk_queue_util : ℕ) → Single → Option Single
adjust_net net_util sys_util blk_util s =
    if ltb (t_high * net_cores s) net_util
    then grow_net net_util sys_util blk_util s
    else if ltb net_util (t_low * net_cores s)
    then shrink_net net_util sys_util s
    else some s

-- `core = j % cores + first` for each queue from `j` on, `rounds` of them.
unfoldable pub spread : Queue → (cores first rounds j : ℕ) → List Hint
spread q cores first zero j = []
spread q cores first (suc rounds) j =
    (record { queue = q; index = j; core = j % cores + first })
    ∷ spread q cores first rounds (j + 1)

-- The remainder by no core at all is a divide error.
unfoldable pub spread_over : Queue → (cores first rounds : ℕ) → Option (List Hint)
spread_over q cores first rounds = if cores == 0 then none else some (spread q cores first rounds 0)

unfoldable pub blk_turn : (p_dynamic : ℕ → ℕ) → Single → Option (Single × List Hint)
blk_turn p s = do
  s' ← adjust_blk (load p s.blk_start blk_end) (load p (s.net_end + 1) (s.blk_start - 1)) s
  hints ← spread_over blk (blk_cores s') s'.blk_start blk_queues
  some (record s' { dynamic_turn = 1 }, hints)

unfoldable pub net_turn : (p_dynamic : ℕ → ℕ) → Single → Option (Single × List Hint)
net_turn p s = do
  s' ←
      adjust_net (load p net_start s.net_end) (load p (s.net_end + 1) (s.blk_start - 1))
        (load p s.blk_start blk_end) s
  hints ← spread_over net (net_cores s') net_start net_queues
  some (record s' { dynamic_turn = 0 }, hints)

-- The part of the timer handler under `#ifdef SINGLE`: the new globals and the hints given.
unfoldable pub tick : (p_dynamic : ℕ → ℕ) → Single → Option (Single × List Hint)
tick p s =
    if s.dynamic_turn == 0
    then blk_turn p s
    else if s.dynamic_turn == 1
    then net_turn p s
    else some (s, [])

-- `init_simpleproc`.
unfoldable pub init : Single
init = record { blk_start = 16; net_end = 12; dynamic_turn = 0 }

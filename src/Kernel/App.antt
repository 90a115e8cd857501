-- ===== src/Kernel/App.antt =====
-- The APP mode of simple_proc_ktimer/simple_proc.c, the one its `#define` selects: each socket has
-- four groups of cores, and a tick moves one core on each socket from the least to the most
-- loaded group.
mod Groups
unfoldable pub use Groups.*
pub mod Sort
pub mod Choice
pub mod Partition
pub mod Ticks
use core_partitioning.Base.{
  ℕ, zero, suc, ◌+◌, ◌-◌, Bool, true, false, ◌||◌, Option, none, some, List, [], ◌∷◌, ◌++◌, ltb,
  leb, ◌==◌, if◌then◌else◌, ◌>>=◌, get_or, set,
}
use core_partitioning.Kernel.Util.{add_load, per_core, Hint, blk, net, blk_queues, net_queues}
use core_partitioning.Kernel.Walk.{walk}

-- `t_tmp > other` with `t_tmp = util - T_CHANGE`, which may be negative.
abbrev pub worth : (util other : ℕ) → Bool
worth util other = ltb (other + t_change) util

-- The branches on `min` for each `max`.
unfoldable pub to_net_queue : Row → ℕ → Socket → Socket
to_net_queue u min s =
    if min == net_sys_index
    then (if worth u.net_queue u.net_sys then record s { net_end = s.net_end + 1 } else s)
    else if min == app_index
    then (if worth u.net_queue u.app
        then record s { app_start = s.app_start + 1; net_end = s.net_end + 1 }
        else s)
    else if min == blk_index
    then (if worth u.net_queue u.blk
        then record s {
          net_end = s.net_end + 1;
          app_start = s.app_start + 1;
          app_end = s.app_end + 1;
          blk_start = s.blk_start + 1;
        }
        else s)
    else s

unfoldable pub to_net_sys : Row → ℕ → Socket → Socket
to_net_sys u min s =
    if min == net_queue_index
    then (if worth u.net_sys u.net_queue then record s { net_end = s.net_end - 1 } else s)
    else if min == app_index
    then (if worth u.net_sys u.app then record s { app_start = s.app_start + 1 } else s)
    else if min == blk_index
    then (if worth u.net_sys u.blk
        then record s {
          blk_start = s.blk_start + 1;
          app_end = s.app_end + 1;
          app_start = s.app_start + 1;
        }
        else s)
    else s

unfoldable pub to_app : Row → ℕ → Socket → Socket
to_app u min s =
    if min == net_queue_index
    then (if worth u.app u.net_queue
        then record s { net_end = s.net_end - 1; app_start = s.app_start - 1 }
        else s)
    else if min == net_sys_index
    then (if worth u.app u.net_sys then record s { app_start = s.app_start - 1 } else s)
    else if min == blk_index
    then (if worth u.app u.blk
        then record s { app_end = s.app_end + 1; blk_start = s.blk_start + 1 }
        else s)
    else s

unfoldable pub to_blk : Row → ℕ → Socket → Socket
to_blk u min s =
    if min == net_queue_index
    then (if worth u.blk u.net_queue
        then record s {
          net_end = s.net_end - 1;
          app_start = s.app_start - 1;
          app_end = s.app_end - 1;
          blk_start = s.blk_start - 1;
        }
        else s)
    else if min == net_sys_index
    then (if worth u.blk u.net_sys
        then record s {
          app_start = s.app_start - 1;
          app_end = s.app_end - 1;
          blk_start = s.blk_start - 1;
        }
        else s)
    else if min == app_index
    then (if worth u.blk u.app
        then record s { app_end = s.app_end - 1; blk_start = s.blk_start - 1 }
        else s)
    else s

unfoldable pub shift : (cores util : Row) → (max min : ℕ) → Socket → Socket
shift cores u max min s =
    if ltb (entry cores min) 2
    then s
    else if max == net_queue_index
    then to_net_queue u min s
    else if max == net_sys_index
    then to_net_sys u min s
    else if max == app_index
    then to_app u min s
    else if max == blk_index
    then to_blk u min s
    else s

-- The second loop's round for one socket.
pub record Adjusted : Type 0 where
  pub socket : Socket
  pub max : ℕ
  pub min : ℕ

unfoldable pub adjust : (util : Row) → Socket → Adjusted
adjust u s =
    let cores = core_counter s in
    let order = sort_index u in
    let max = max_group order in
    let min = min_group cores order in
    record { socket = shift cores u max min s; max = max; min = min }

-- The partition of the two sockets: `per[0]` and `per[1]`.
pub record App : Type 0 where
  pub low : Socket
  pub high : Socket

-- Socket NUMBER_OF_SOCKETS - k - 1.
abbrev pub from_last : App → ℕ → Socket
from_last a zero = a.high
from_last a (suc _) = a.low

-- `if (max == 0 || min == 0) net_flag = 1; if (min == 4 || max == 4) blk_flag = 1;`
abbrev pub sets_net : Adjusted → Bool
sets_net r = (r.max == 0) || (r.min == 0)

abbrev pub sets_blk : Adjusted → Bool
sets_blk r = (r.min == 4) || (r.max == 4)

unfoldable pub blk_hints : App → List Hint
blk_hints a =
    walk blk (λ k. (from_last a k).blk_start)
      (λ k i. (from_last a k).blk_end + i == (from_last a k).blk_start) number_of_sockets blk_queues
      0 0 0

unfoldable pub net_hints : App → List Hint
net_hints a =
    walk net (λ k. (from_last a k).net_start)
      (λ k i. (from_last a k).net_start + i == (from_last a k).net_end) number_of_sockets net_queues
      0 0 0

-- The part of the timer handler under `#ifdef APP`. The global `sum_avg` is left out: the mode
-- computes it and reads it nowhere.
unfoldable pub tick : (p_dynamic : ℕ → ℕ) → App → Option (App × List Hint)
tick p a = do
  u_high ← util_row p a.high
  u_low ← util_row p a.low
  let high = adjust u_high a.high
  let low = adjust u_low a.low
  let a' : App = record { low = low.socket; high = high.socket }
  some (
    a',
    (if sets_blk high || sets_blk low then blk_hints a' else [])
        ++ (if sets_net high || sets_net low then net_hints a' else []),
  )

-- `init_simpleproc`.
unfoldable pub init : App
init = record {
  low = record {
    net_start = 0;
    net_end = 1;
    app_start = 4;
    app_end = 8;
    blk_start = 7;
    blk_end = 9;
  };
  high = record {
    net_start = 10;
    net_end = 11;
    app_start = 14;
    app_end = 18;
    blk_start = 17;
    blk_end = 19;
  };
}

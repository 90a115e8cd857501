-- ===== src/Kernel/Sockets.antt =====
-- The modes CROSS and PER of simple_proc_ktimer/simple_proc.c: each socket has net queue cores,
-- net system call cores and block queue cores. CROSS also chooses how many sockets take part, from
-- the last one down; in PER all do.
pub mod Partition
pub mod Ticks
use core_partitioning.Base.{
  ℕ, zero, suc, ◌+◌, ◌-◌, ◌*◌, ◌/◌, Bool, ◌&&◌, Option, none, some, List, [], ltb, ◌==◌, ◌!=◌,
  if◌then◌else◌, ◌>>=◌,
}
use core_partitioning.Kernel.Util.{
  t_high, t_low, blk_queues, net_queues, add_load, per_core, blk, net, Hint,
}
use core_partitioning.Kernel.Walk.{walk}

abbrev pub number_of_sockets : ℕ
number_of_sockets = 2

pub record Socket : Type 0 where
  pub net_start : ℕ
  pub net_end : ℕ
  pub blk_start : ℕ
  pub blk_end : ℕ

-- One element of `blk_queue_util_avg`, `net_queue_util_avg` and `net_sys_util_avg`.
pub record Averages : Type 0 where
  pub blk : ℕ
  pub net : ℕ
  pub sys : ℕ

-- An array with an element for each socket, and the source's index into it.
pub record Pair (A : Type 0) : Type 0 where
  pub low : A
  pub high : A

abbrev pub at : {A : Type 0} → Pair A → ℕ → A
at r zero = r.low
at r (suc _) = r.high

abbrev pub put : {A : Type 0} → Pair A → ℕ → A → Pair A
put r zero a = record r { low = a }
put r (suc _) a = record r { high = a }

-- A read at index 2 lies one past the array: what it gives is `beyond`.
abbrev pub read : Pair Averages → Averages → ℕ → Averages
read r beyond zero = r.low
read r beyond (suc zero) = r.high
read r beyond (suc (suc _)) = beyond

unfoldable pub measure : (p_dynamic : ℕ → ℕ) → Socket → Option Averages
measure p s = do
  let blk_cores = s.blk_end + 1 - s.blk_start
  let net_cores = s.net_end + 1 - s.net_start
  let sys_cores = s.blk_start - (s.net_end + 1)
  b ← per_core (add_load p blk_cores s.blk_start 0) blk_cores
  q ← per_core (add_load p net_cores s.net_start 0) net_cores
  n ← per_core (add_load p sys_cores (s.net_end + 1) 0) sys_cores
  some (record { blk = b; net = q; sys = n })

-- `for (i = 1; i <= socket_number; i++)`, filling the averages and adding to `sum_avg`.
unfoldable pub measure_loop :
    (p_dynamic : ℕ → ℕ)
    → Averages
    → Pair Socket
    → (rounds i : ℕ) → Pair Averages
    → (sum_avg : ℕ) → Option (Pair Averages × ℕ)
measure_loop p beyond per zero i avgs sum = some (avgs, sum)
measure_loop p beyond per (suc rounds) i avgs sum =
    measure p (at per (number_of_sockets - i)) >>= λ a.
    let avgs' = put avgs (number_of_sockets - i) a in
    let r = read avgs' beyond i in
    measure_loop p beyond per rounds (i + 1) avgs' (sum + r.blk + r.net + r.sys)

-- The turn of the block queues on one socket. `watched` is `blk_queue_util_avg[i]`. The test
-- `blk_start - net_end > 3` is written without `-`.
unfoldable pub adjust_blk : (watched : ℕ) → Averages → Socket → Socket
adjust_blk watched a s =
    if ltb t_high watched
    then (if ltb a.sys a.blk
        then (if ltb (s.net_end + 3) s.blk_start
            then record s { blk_start = s.blk_start - 1 }
            else s)
        else if ltb a.blk a.sys && s.blk_start != s.blk_end
        then record s { blk_start = s.blk_start + 1 }
        else s)
    else if ltb a.blk t_low && s.blk_end != s.blk_start
    then record s { blk_start = s.blk_start + 1 }
    else s

unfoldable pub adjust_net : Averages → Socket → Socket
adjust_net a s =
    if ltb t_high a.net
    then (if ltb a.sys a.net
        then (if ltb (s.net_end + 3) s.blk_start then record s { net_end = s.net_end + 1 } else s)
        else if ltb a.net a.sys && s.net_start != s.net_end
        then record s { net_end = s.net_end - 1 }
        else s)
    else if ltb a.net t_low && s.net_start != s.net_end
    then record s { net_end = s.net_end - 1 }
    else s

-- The loop's body: `dynamic_turn` 0 is for blk, 1 for net.
unfoldable pub adjust : (turn watched : ℕ) → Averages → Socket → Socket
adjust turn watched a s =
    if turn == 0 then adjust_blk watched a s else if turn == 1 then adjust_net a s else s

unfoldable pub adjust_loop :
    (turn : ℕ) → Pair Averages → Averages → (rounds i : ℕ) → Pair Socket → Pair Socket
adjust_loop turn avgs beyond zero i per = per
adjust_loop turn avgs beyond (suc rounds) i per =
    let j = number_of_sockets - i in
    adjust_loop turn avgs beyond rounds (i + 1)
      (put per j (adjust turn (read avgs beyond i).blk (at avgs j) (at per j)))

-- What the modes keep from one tick to the next.
pub record Sockets : Type 0 where
  pub per : Pair Socket
  pub avgs : Pair Averages
  pub socket_number : ℕ
  pub dynamic_turn : ℕ
  pub sum_avg : ℕ

abbrev pub from_last : Pair Socket → ℕ → Socket
from_last per k = at per (number_of_sockets - k - 1)

unfoldable pub blk_hints : Pair Socket → (sockets : ℕ) → List Hint
blk_hints per n =
    walk blk (λ k. (from_last per k).blk_start)
      (λ k i. (from_last per k).blk_start + i == (from_last per k).blk_end) n blk_queues 0 0 0

unfoldable pub net_hints : Pair Socket → (sockets : ℕ) → List Hint
net_hints per n =
    walk net (λ k. (from_last per k).net_start)
      (λ k i. (from_last per k).net_start + i == (from_last per k).net_end) n net_queues 0 0 0

-- The redistribution of the queues, and the turn that follows.
unfoldable pub redistribute : Sockets → Sockets × List Hint
redistribute s =
    if s.dynamic_turn == 0
    then (record s { dynamic_turn = 1 }, blk_hints s.per s.socket_number)
    else if s.dynamic_turn == 1
    then (record s { dynamic_turn = 0 }, net_hints s.per s.socket_number)
    else (s, [])

-- `sum_avg` is divided by three times the number of sockets.
unfoldable pub mean : (sum_avg socket_number : ℕ) → Option ℕ
mean sum n = per_core sum (n * 3)

unfoldable pub change_sockets : (sum_avg socket_number : ℕ) → ℕ
change_sockets avg n =
    if ltb t_high avg
    then (if ltb n number_of_sockets then n + 1 else n)
    else if ltb avg t_low
    then (if ltb 1 n then n - 1 else n)
    else n

-- What the three places that read one past the arrays find there, taken as not negative.
pub record Beyond : Type 0 where
  pub first : Averages
  pub second : Averages
  pub watched : Averages

-- The part of the timer handler under `#ifdef CROSS`.
unfoldable pub tick_cross : (p_dynamic : ℕ → ℕ) → Beyond → Sockets → Option (Sockets × List Hint)
tick_cross p b s = do
  (avgs, sum) ← measure_loop p b.first s.per s.socket_number 1 s.avgs 0
  avg ← mean sum s.socket_number
  let n = change_sockets avg s.socket_number
  (avgs', sum') ← measure_loop p b.second s.per n 1 avgs 0
  avg' ← mean sum' n
  some (
      redistribute (record {
        per = adjust_loop s.dynamic_turn avgs' b.watched n 1 s.per;
        avgs = avgs';
        socket_number = n;
        dynamic_turn = s.dynamic_turn;
        sum_avg = avg';
      }))

-- The part under `#ifdef PER`.
unfoldable pub tick_per : (p_dynamic : ℕ → ℕ) → Beyond → Sockets → Option (Sockets × List Hint)
tick_per p b s = do
  let n = number_of_sockets
  (avgs, sum) ← measure_loop p b.first s.per n 1 s.avgs 0
  avg ← mean sum n
  some (
      redistribute (record {
        per = adjust_loop s.dynamic_turn avgs b.watched n 1 s.per;
        avgs = avgs;
        socket_number = n;
        dynamic_turn = s.dynamic_turn;
        sum_avg = avg;
      }))

-- `init_simpleproc`; the averages and the sum are globals that start at zero.
unfoldable pub init : Sockets
init = record {
  per = record {
    low = record { net_start = 0; net_end = 2; blk_start = 6; blk_end = 9 };
    high = record { net_start = 10; net_end = 12; blk_start = 16; blk_end = 19 };
  };
  avgs = record {
    low = record { blk = 0; net = 0; sys = 0 };
    high = record { blk = 0; net = 0; sys = 0 };
  };
  socket_number = 1;
  dynamic_turn = 0;
  sum_avg = 0;
}

-- ===== src/Preload/Schedule.antt =====
-- One call over the channel of ipc.c at the grain of its statements: each `sem_wait`, `memcpy` and
-- `sem_post` of the caller and of the descriptor's thread is a step, and a schedule says whose turn
-- it is. A turn of a side that is blocked does nothing.
pub mod Turns
pub mod Fair
pub mod Refines
pub mod Alone
use core_partitioning.Base.{ℕ, ◌+◌, Bool, true, false, Option, none, some, ◌>>=◌, List, [], ◌∷◌}
use core_partitioning.Table.{Semaphores, fresh_sems}
use core_partitioning.Preload.Request.{Request, Retval, Originals}
use core_partitioning.Preload.Thread.{Thread, round}
use core_partitioning.Preload.Channel.{Message, unset, args, retval, sem_wait, sem_post}
use core_partitioning.Preload.Wrapper.{as_args}

-- Where the caller stands in `CPART_send_to_thread` and `CPART_recv_from_thread`.
pub data Caller : Type 0 where
  wait_empty : Caller
  wait_mutex : Caller
  write_args : Caller
  post_mutex : Caller
  post_full : Caller
  wait_full2 : Caller
  wait_mutex2 : Caller
  read_retval : Caller
  post_mutex2 : Caller
  post_empty2 : Caller
  returned : Caller

-- Where the thread stands in a round: `CPART_recv_from_app`, the `switch`, `CPART_send_to_app`.
pub data Server : Type 0 where
  take_full : Server
  take_mutex : Server
  read_args : Server
  give_mutex : Server
  give_empty : Server
  executing : Server
  take_empty2 : Server
  take_mutex2 : Server
  write_retval : Server
  give_mutex2 : Server
  give_full2 : Server

pub record Exchange (W : Type 0) : Type 0 where
  pub sems : Semaphores
  pub message : Message
  pub caller : Caller
  pub request : Request  -- the caller's `send_data`
  pub answer : Message  -- its `recv_data`
  pub server : Server
  pub asked : Message  -- the thread's `send_data`
  pub thread : Thread
  pub world : W

-- One statement of the caller; `none` if it blocks, or has returned.
unfoldable pub call_at : {W : Type 0} → Caller → Exchange W → Option (Exchange W)
call_at wait_empty s = sem_wait s.sems.empty >>= λ n.
    some (record s { sems = record s.sems { empty = n }; caller = wait_mutex })
call_at wait_mutex s = sem_wait s.sems.mutex >>= λ n.
    some (record s { sems = record s.sems { mutex = n }; caller = write_args })
call_at write_args s = some (record s { message = args s.request; caller = post_mutex })
call_at post_mutex s =
    some (record s { sems = record s.sems { mutex = sem_post s.sems.mutex }; caller = post_full })
call_at post_full s =
    some (record s { sems = record s.sems { full = sem_post s.sems.full }; caller = wait_full2 })
call_at wait_full2 s = sem_wait s.sems.full2 >>= λ n.
    some (record s { sems = record s.sems { full2 = n }; caller = wait_mutex2 })
call_at wait_mutex2 s = sem_wait s.sems.mutex2 >>= λ n.
    some (record s { sems = record s.sems { mutex2 = n }; caller = read_retval })
call_at read_retval s = some (record s { answer = s.message; caller = post_mutex2 })
call_at post_mutex2 s =
    some
      (record s { sems = record s.sems { mutex2 = sem_post s.sems.mutex2 }; caller = post_empty2 })
call_at post_empty2 s =
    some (record s { sems = record s.sems { empty2 = sem_post s.sems.empty2 }; caller = returned })
call_at returned s = none

-- One statement of the thread; the whole `switch` is one.
unfoldable pub serve_at : {W : Type 0} → Originals W → Server → Exchange W → Option (Exchange W)
serve_at o take_full s = sem_wait s.sems.full >>= λ n.
    some (record s { sems = record s.sems { full = n }; server = take_mutex })
serve_at o take_mutex s = sem_wait s.sems.mutex >>= λ n.
    some (record s { sems = record s.sems { mutex = n }; server = read_args })
serve_at o read_args s = some (record s { asked = s.message; server = give_mutex })
serve_at o give_mutex s =
    some (record s { sems = record s.sems { mutex = sem_post s.sems.mutex }; server = give_empty })
serve_at o give_empty s =
    some (record s { sems = record s.sems { empty = sem_post s.sems.empty }; server = executing })
serve_at o executing s = as_args s.asked >>= λ r.
    let served = round o r s.thread s.world in
    some (record s { thread = served.0; world = served.1; server = take_empty2 })
serve_at o take_empty2 s = sem_wait s.sems.empty2 >>= λ n.
    some (record s { sems = record s.sems { empty2 = n }; server = take_mutex2 })
serve_at o take_mutex2 s = sem_wait s.sems.mutex2 >>= λ n.
    some (record s { sems = record s.sems { mutex2 = n }; server = write_retval })
serve_at o write_retval s =
    some (record s { message = retval s.thread.recv_data; server = give_mutex2 })
serve_at o give_mutex2 s =
    some
      (record s { sems = record s.sems { mutex2 = sem_post s.sems.mutex2 }; server = give_full2 })
serve_at o give_full2 s =
    some (record s { sems = record s.sems { full2 = sem_post s.sems.full2 }; server = take_full })

abbrev pub or_stay : {W : Type 0} → Exchange W → Option (Exchange W) → Exchange W
or_stay s none = s
or_stay s (some s') = s'

-- A turn of the caller (`true`) or of the thread.
unfoldable pub turn : {W : Type 0} → Originals W → Bool → Exchange W → Exchange W
turn o true s = or_stay s (call_at s.caller s)
turn o false s = or_stay s (serve_at o s.server s)

unfoldable pub run : {W : Type 0} → Originals W → List Bool → Exchange W → Exchange W
run o [] s = s
run o (who ∷ rest) s = run o rest (turn o who s)

-- A call begins while the thread waits for one.
abbrev pub begin_call :
    {W : Type 0} → Request → (buffer answer asked : Message) → Thread → W → Exchange W
begin_call r buffer answer asked t w = record {
  sems = fresh_sems;
  message = buffer;
  caller = wait_empty;
  request = r;
  answer = answer;
  server = take_full;
  asked = asked;
  thread = t;
  world = w;
}

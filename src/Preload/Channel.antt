-- ===== src/Preload/Channel.antt =====
-- ipc.c: the four operations on the message buffer of a descriptor. Requests and replies have
-- semaphores of their own, but they share one buffer.
pub mod Turns
use core_partitioning.Base.{ℕ, zero, suc, ◌+◌, Option, none, some, ◌>>=◌}
use core_partitioning.Table.{Semaphores, fresh_sems}
use core_partitioning.Preload.Request.{Request, Retval}

-- What the bytes of the buffer were written as.
pub data Message : Type 0 where
  unset : Message
  args : Request → Message
  retval : Retval → Message

pub record Channel : Type 0 where
  pub sems : Semaphores
  pub message : Message

-- `sem_wait`: it blocks on 0.
abbrev pub sem_wait : ℕ → Option ℕ
sem_wait zero = none
sem_wait (suc n) = some n

abbrev pub sem_post : ℕ → ℕ
sem_post n = n + 1

unfoldable pub send_to_thread : Request → Channel → Option Channel
send_to_thread r c = do
  empty ← sem_wait c.sems.empty
  mutex ← sem_wait c.sems.mutex
  some (record {
    sems = record c.sems { empty = empty; mutex = sem_post mutex; full = sem_post c.sems.full };
    message = args r;
  })

unfoldable pub recv_from_app : Channel → Option (Message × Channel)
recv_from_app c = do
  full ← sem_wait c.sems.full
  mutex ← sem_wait c.sems.mutex
  some (
    c.message,
    record c {
      sems = record c.sems { full = full; mutex = sem_post mutex; empty = sem_post c.sems.empty };
    },
  )

unfoldable pub send_to_app : Retval → Channel → Option Channel
send_to_app v c = do
  empty2 ← sem_wait c.sems.empty2
  mutex2 ← sem_wait c.sems.mutex2
  some (record {
    sems = record c.sems {
      empty2 = empty2;
      mutex2 = sem_post mutex2;
      full2 = sem_post c.sems.full2;
    };
    message = retval v;
  })

unfoldable pub recv_from_thread : Channel → Option (Message × Channel)
recv_from_thread c = do
  full2 ← sem_wait c.sems.full2
  mutex2 ← sem_wait c.sems.mutex2
  some (
    c.message,
    record c {
      sems = record c.sems {
        full2 = full2;
        mutex2 = sem_post mutex2;
        empty2 = sem_post c.sems.empty2;
      };
    },
  )

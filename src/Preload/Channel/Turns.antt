-- ===== src/Preload/Channel/Turns.antt =====
-- One exchange over the buffer of ipc.c.
use core_partitioning.Base.{◌≡◌, refl, Option, some, ◌>>=◌}
use core_partitioning.Table.{fresh_sems}
use core_partitioning.Preload.Request.{Request, Retval}
use core_partitioning.Preload.Channel.{
  Message, args, retval, Channel, send_to_thread, recv_from_app, send_to_app, recv_from_thread,
}

abbrev pub idle : Message → Channel
idle m = record { sems = fresh_sems; message = m }

-- A call of a wrapper and the round of the thread that serves it.
abbrev pub hand_over : Request → Channel → Option (Message × Channel)
hand_over r c = send_to_thread r c >>= recv_from_app

abbrev pub hand_back : Retval → Channel → Option (Message × Channel)
hand_back v c = send_to_app v c >>= recv_from_thread

-- On an idle channel, whatever its buffer holds, neither side blocks: the thread reads the request
-- that was sent, the caller reads the reply that was sent, and the channel is idle both times.
pub hand_over-back :
    (r : Request) (v : Retval) (m : Message)
    → (hand_over r (idle m) ≡ some (args r, idle (args r)))
      × (hand_back v (idle (args r)) ≡ some (retval v, idle (retval v)))
unfolding send_to_thread recv_from_app send_to_app recv_from_thread
hand_over-back r v m = (refl, refl)

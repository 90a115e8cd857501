-- ===== src/Preload/Schedule/Refines.antt =====
-- The one-step exchange of the wrappers against the statements of ipc.c.
use core_partitioning.Base.{◌≡◌, refl, Bool, List, some}
use core_partitioning.Table.{Ptr, fresh_sems, update}
use core_partitioning.Preload.Request.{Request, Originals}
use core_partitioning.Preload.Channel.{Message, retval}
use core_partitioning.Preload.Wrapper.{Process, set_channel, exchange}
use core_partitioning.Preload.Wrapper.Forward.{exchange-round}
use core_partitioning.Preload.Schedule.{returned, Exchange, run, begin_call}
use core_partitioning.Preload.Schedule.Fair.{returned-last}

module _ {W : Type 0} (o : Originals W) (r : Request) (s : Process W) (p : Ptr)
    (answer asked : Message) where
  -- A call of the process that nobody has looked at yet.
  abbrev pub call_on : Exchange W
  call_on = begin_call r (s.buffers (s.table.cell p).message) answer asked (s.threads p) s.world

  -- The process with what the two sides have done to the channel, the thread and the system.
  abbrev pub put_back : Exchange W → Process W
  put_back e = record (set_channel s p (record { sems = e.sems; message = e.message })) {
    threads = update s.threads p e.thread;
    world = e.world;
  }

  -- On an idle channel, however the statements of the caller and of the thread interleave, once the
  -- call has returned the caller holds the reply, and reply and process are those of `exchange`.
  pub returned-exchange :
      (s.table.cell p).sems ≡ fresh_sems
      → (xs : List Bool)
      → let e = run o xs call_on in
        e.caller ≡ returned
        → (exchange o p r s ≡ some (e.thread.recv_data, put_back e))
          × (e.answer ≡ retval e.thread.recv_data)
  returned-exchange idle xs back =
      let same = returned-last o r _ answer asked (s.threads p) s.world xs back in
      rw same (exchange-round o r s p idle, refl)

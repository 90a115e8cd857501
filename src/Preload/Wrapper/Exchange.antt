-- ===== src/Preload/Wrapper/Exchange.antt =====
-- What the wrappers of ld_preload.c share: the state of the process, the exchange of a call with a
-- thread of its own, and the body around it.
use core_partitioning.Base.{ℕ, ℤ, Bool, not, Option, none, some, ◌>>=◌, ◌==◌, ◌!=◌, if◌then◌else◌}
use core_partitioning.Table.{Ptr, null, Table, Run, ok, exit, fault, out_of_fuel, update}
use core_partitioning.Preload.Request.{Request, Retval, Call, Originals}
use core_partitioning.Preload.Thread.{Thread, round, is_last}
use core_partitioning.Preload.Channel.{
  Message, unset, args, retval, Channel, send_to_thread, recv_from_app, send_to_app,
  recv_from_thread,
}

-- The table, the message buffers by their addresses, the threads by their nodes, the nodes whose
-- thread runs and has not left its loop, the caller's `errno`, and the system.
pub record Process (W : Type 0) : Type 0 where
  pub table : Table
  pub buffers : Ptr → Message
  pub threads : Ptr → Thread
  pub serving : Ptr → Bool
  pub errno : ℕ
  pub world : W

abbrev pub channel : {W : Type 0} → Process W → Ptr → Channel
channel s p = record { sems = (s.table.cell p).sems; message = s.buffers (s.table.cell p).message }

abbrev pub set_channel : {W : Type 0} → Process W → Ptr → Channel → Process W
set_channel s p c = record s {
  table = record s.table {
    cell = update s.table.cell p (record (s.table.cell p) { sems = c.sems });
  };
  buffers = update s.buffers (s.table.cell p).message c.message;
}

-- The bytes read as `args_data`, and as `retval_data`: what was not written as such is garbage,
-- with which nothing here goes on.
abbrev pub as_args : Message → Option Request
as_args unset = none
as_args (args r) = some r
as_args (retval _) = none

abbrev pub as_retval : Message → Option Retval
as_retval unset = none
as_retval (args _) = none
as_retval (retval v) = some v

-- `CPART_send_to_thread`, a round of the thread, `CPART_recv_from_thread`.
unfoldable pub exchange :
    {W : Type 0} → Originals W → Ptr → Request → Process W → Option (Retval × Process W)
exchange o p r s = do
  asked ← send_to_thread r (channel s p)
  taken ← recv_from_app asked
  request ← as_args taken.0
  let served = round o request (s.threads p) s.world
  answered ← send_to_app served.0.recv_data taken.1
  read ← recv_from_thread answered
  v ← as_retval read.0
  some (
    v,
    record (set_channel s p read.1) { threads = update s.threads p served.0; world = served.1 },
  )

-- The exchange if a thread waits at the other end; the caller waits for ever if none does. The thread
-- leaves its loop after a `close` or a `shutdown`; no request that the wrappers send sets
-- `loop_break`.
unfoldable pub ask :
    {W : Type 0} → Originals W → Ptr → Request → Process W → Option (Retval × Process W)
ask o p r s =
    if s.serving p
    then (exchange o p r s >>= λ x.
        some (x.0, record x.1 { serving = update s.serving p (not (is_last r)) }))
    else none

-- What a wrapper does with the thread's `errno`: `if (thr_errno != 0) errno = thr_errno; else errno
-- = func_errno;`, or `errno = thr_errno;`, or `errno = func_errno;`.
pub data Policy : Type 0 where
  set_if_changed : Policy
  set_always : Policy
  keep : Policy

abbrev pub settle : Policy → (func_errno thr_errno : ℕ) → ℕ
settle set_if_changed old e = if e != 0 then e else old
settle set_always old e = e
settle keep old e = old

-- The call made by the caller itself.
abbrev pub directly : {W : Type 0} → Call W → (errno : ℕ) → Process W → ℤ × Process W
directly f e s = let r = f e s.world in (r.value, record s { errno = r.errno; world = r.world })

-- The body that the wrappers share. `result` is the field of the reply that is returned, `before`
-- the `errno` with which an unknown descriptor's call is made.
unfoldable pub forward :
    {W : Type 0}
    → Originals W
    → (Table → Run Ptr)
    → Request
    → (result : Retval → ℤ) → Policy
    → Call W
    → (before : ℕ) → Process W
    → Option (ℤ × Process W)
forward o find r result policy original before s = elim (find s.table) [
  | ok p _ ↦
      if p == null
      then some (directly original before s)
      else (ask o p r s >>= λ x.
          some (result x.0, record x.1 { errno = settle policy s.errno x.0.thr_errno }))
  | exit ↦ none
  | fault ↦ none
  | out_of_fuel ↦ none
]

abbrev pub value : Retval → ℤ
value v = v.return_value

abbrev pub size : Retval → ℤ
size v = v.return_size

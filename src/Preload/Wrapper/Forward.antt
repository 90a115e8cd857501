-- ===== src/Preload/Wrapper/Forward.antt =====
-- The body that the wrappers of ld_preload.c share: what a call returns and leaves.
use core_partitioning.Base.{ℕ, ◌≡◌, ◌≢◌, refl, ap, ℤ, some, true, not, ◌>>=◌, Returns, ne→==, arith}
use core_partitioning.Table.{Ptr, null, Table, fresh_sems, Run, ok, update}
use core_partitioning.Preload.Request.{Request, Retval, Call, Originals}
use core_partitioning.Preload.Thread.{Thread, begin, round, call_value, call_size, is_last}
use core_partitioning.Preload.Channel.{
  retval, send_to_thread, recv_from_app, send_to_app, recv_from_thread,
}
use core_partitioning.Preload.Wrapper.{
  Process, set_channel, exchange, ask, Policy, settle, directly, forward, value, size,
}

-- The descriptor has an entry with a thread that waits, and no call on it is under way.
pub record Idle {W : Type 0} (s : Process W) (found : Run Ptr) (p : Ptr) : Type 0 where
  pub entry : found ≡ ok p s.table
  pub node : p ≢ null
  pub sems : (s.table.cell p).sems ≡ fresh_sems
  pub serving : s.serving p ≡ true

-- The outcome is that of `f`, made with `errno` 0 by the thread, and `errno` as the policy has it.
-- The channel is free again.
pub record Forwarded {W : Type 0} (f : Call W) (policy : Policy) (s : Process W) (p : Ptr)
    (r : ℤ × Process W) : Type 0 where
  pub value : r.0 ≡ (f 0 s.world).value
  pub errno : r.1.errno ≡ settle policy s.errno (f 0 s.world).errno
  pub world : r.1.world ≡ (f 0 s.world).world
  pub sems : (r.1.table.cell p).sems ≡ fresh_sems

-- The reply's field `result` and its `errno` after a round.
pub record Carries {W : Type 0} (f : Call W) (get : Retval → ℤ) (w : W) (r : Thread × W)
    : Type 0 where
  pub result : get r.0.recv_data ≡ (f 0 w).value
  pub errno : r.0.recv_data.thr_errno ≡ (f 0 w).errno
  pub world : r.1 ≡ (f 0 w).world

module _ {W : Type 0} (f : Call W) (t : Thread) (w : W) where
  pub call_value-Carries : Carries f value w (call_value f (begin t) w)
  unfolding call_value begin
  call_value-Carries = record { result = refl; errno = ground arith; world = refl }

  pub call_size-Carries : Carries f size w (call_size f (begin t) w)
  unfolding call_size begin
  call_size-Carries = record { result = refl; errno = ground arith; world = refl }

module _ {W : Type 0} (o : Originals W) (r : Request) (s : Process W) where
  pub exchange-round :
      (p : Ptr)
      → (s.table.cell p).sems ≡ fresh_sems
      → exchange o p r s ≡ (
          let served = round o r (s.threads p) s.world in
          some (
            served.0.recv_data,
            record (set_channel s p
                (record { sems = fresh_sems; message = retval served.0.recv_data })) {
                  threads = update s.threads p served.0;
                  world = served.1;
                },
          ))
  unfolding exchange send_to_thread recv_from_app send_to_app recv_from_thread
  exchange-round p e = rw e

  pub ask-round :
      (p : Ptr)
      → (s.table.cell p).sems ≡ fresh_sems
      → s.serving p ≡ true
      → ask o p r s ≡ (
          let served = round o r (s.threads p) s.world in
          some (
            served.0.recv_data,
            record (set_channel s p
                (record { sems = fresh_sems; message = retval served.0.recv_data })) {
                  threads = update s.threads p served.0;
                  serving = update s.serving p (not (is_last r));
                  world = served.1;
                },
          ))
  unfolding ask
  ask-round p e h = rw (h, exchange-round p e, ◌>>=◌)

module _ {W : Type 0} (o : Originals W) (find : Table → Run Ptr) (r : Request) (f : Call W)
    (s : Process W) where
  -- A call on an idle descriptor is made once, by the thread, and its result comes back.
  pub forward-Forwarded :
      (original : Call W) (result : Retval → ℤ) (policy : Policy) (before : ℕ) (p : Ptr)
      → Carries f result s.world (round o r (s.threads p) s.world)
      → Idle s (find s.table) p
      → Returns (Forwarded f policy s p) (forward o find r result policy original before s)
  unfolding forward
  forward-Forwarded original result policy before p c idle =
      rw
        (
          forward,
          idle.entry,
          ne→== p null idle.node,
          ask-round o r s p idle.sems idle.serving,
          ◌>>=◌,
        )
        (record {
          value = c.result;
          errno = ap (λ e. settle policy s.errno e) c.errno;
          world = c.world;
          sems = ground arith;
        })

  -- A call on a descriptor without an entry is the original call.
  pub forward-directly :
      (result : Retval → ℤ) (policy : Policy) (before : ℕ)
      → find s.table ≡ ok null s.table
      → forward o find r result policy f before s ≡ some (directly f before s)
  unfolding forward
  forward-directly result policy before e = rw (forward, e)

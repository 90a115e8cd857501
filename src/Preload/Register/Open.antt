-- ===== src/Preload/Register/Open.antt =====
-- `socket`, `open`, `openat` and `close` of ld_preload.c.
use core_partitioning.Base.{
  ℕ, ◌+◌, ◌<◌, ◌≡◌, refl, ℤ, is_negative, true, false, Returns, List, arith, length, ne→==,
}
use core_partitioning.Table.{Ptr, null, ok, goes_on, get_by_fd, get_by_fd_all}
use core_partitioning.Table.Chain.{IsTable}
use core_partitioning.Table.Lookup.Found.{get_by_fd_front}
use core_partitioning.Preload.Request.{Originals}
use core_partitioning.Preload.Wrapper.{Process, directly}
use core_partitioning.Preload.Wrapper.Forward.{Idle}
use core_partitioning.Preload.Register.{
  EntryEnv, maxthread, enter, call_keeping, below_three, positive, socket, open_path, openat,
}
use core_partitioning.Preload.Register.Entry.{Supplied, Entered, register-Entered}

pub positive_shown :
    (ret : ℤ) → positive ret ≡ true → (goes_on ret ≡ true) × (is_negative ret ≡ false)
positive_shown ret h = ground arith

-- The descriptor is returned, has a new entry before all others with a thread that waits for a
-- call, and the system and `errno` are as the original call left them.
pub record Opened {W : Type 0} (e : EntryEnv) (fuel kind : ℕ) (xs : List Ptr) (ret : ℤ)
    (s s' : Process W) (r : ℤ × Process W) : Type 0 where
  pub value : r.0 ≡ ret
  pub entered : Entered s.table r.1.table xs e.add_env.node kind ret
  pub started : r.1.threads e.add_env.node ≡ e.started
  pub idle : Idle r.1 (get_by_fd fuel ret kind r.1.table) e.add_env.node
  pub errno : r.1.errno ≡ s'.errno
  pub world : r.1.world ≡ s'.world

module _ {W : Type 0} (e : EntryEnv) (s : Process W) (xs : List Ptr) (v : IsTable s.table xs)
    (supplied : Supplied e s.table) (room : s.table.thr_num < maxthread) (fuel : ℕ)
    (enough : length xs + 1 < fuel) where
  pub enter-Opened :
      (kind : ℕ) (ret : ℤ) (s' : Process W)
      → s'.table ≡ s.table
      → get_by_fd_all fuel ret s.table ≡ ok null s.table
      → positive ret ≡ true
      → Returns (Opened e fuel kind xs ret s s') (enter e fuel kind true ret s')
  unfolding enter
  enter-Opened kind ret s' same out more =
      let (shown, neg) = positive_shown ret more in
      let (t', done, entered) =
        register-Entered e s.table xs v supplied fuel kind ret out neg room in
      rw (same, done, ne→== e.add_env.node null supplied.node)
        (record {
          value = refl;
          entered = entered;
          started = ground (arith, supplied.created);
          idle = record {
            entry =
                get_by_fd_front t' e.add_env.node xs fuel ret kind entered.table enough entered.fd
                  entered.sort shown;
            node = supplied.node;
            sems = entered.sems;
            serving = ground (arith, supplied.created);
          };
          errno = refl;
          world = refl;
        })

  -- On a table with room, with fuel for one entry more, if the system supplies a node, a buffer and
  -- a thread (`pthread_create` succeeds), and the new descriptor is above 0 and not in the table:
  -- `socket` returns what the original function does and leaves its `errno` and its effect on the
  -- system, and the descriptor has become an idle socket of the table.
  pub socket-Opened :
      (o : Originals W) (domain kind protocol : ℤ)
      → positive (o.socket domain kind protocol s.errno s.world).value ≡ true
      → get_by_fd_all fuel (o.socket domain kind protocol s.errno s.world).value s.table
        ≡ ok null s.table
      → Returns
          (Opened e fuel 0 xs
            (o.socket domain kind protocol s.errno s.world).value
            s
            (directly (o.socket domain kind protocol) s.errno s).1)
          (socket o e fuel domain kind protocol s)
  unfolding socket
  socket-Opened o domain kind protocol more out = enter-Opened 0 _ _ refl out more

  -- On a table with room, with fuel for one entry more, if the system supplies a node, a buffer and
  -- a thread (`pthread_create` succeeds), and the new descriptor is not in the table and is 3 or
  -- more for `open`, above 0 for `openat`: each returns what the original function does and leaves
  -- its effect on the system, `errno` is the former one if the original set none, and the
  -- descriptor has become an idle file of the table.
  pub opens-Opened :
      (o : Originals W) (dirfd : ℤ) (path : ℕ) (flags : ℤ) (mode : ℕ)
      → below_three (o.open_file path flags mode 0 s.world).value ≡ false
      → get_by_fd_all fuel (o.open_file path flags mode 0 s.world).value s.table ≡ ok null s.table
      → positive (o.openat dirfd path flags mode 0 s.world).value ≡ true
      → get_by_fd_all fuel (o.openat dirfd path flags mode 0 s.world).value s.table
        ≡ ok null s.table
      → Returns
          (Opened e fuel 1 xs
            (o.open_file path flags mode 0 s.world).value
            s
            (call_keeping (o.open_file path flags mode) s))
          (open_path o e fuel path flags mode s)
        × Returns
            (Opened e fuel 1 xs
              (o.openat dirfd path flags mode 0 s.world).value
              s
              (call_keeping (o.openat dirfd path flags mode) s))
            (openat o e fuel dirfd path flags mode s)
  unfolding open_path openat
  opens-Opened o dirfd path flags mode high out more out' = (
    rw high (
        enter-Opened 1 _ (call_keeping (o.open_file path flags mode) s) refl out
          (above (o.open_file path flags mode 0 s.world).value high)),
    rw more (enter-Opened 1 _ (call_keeping (o.openat dirfd path flags mode) s) refl out' more),
  )
    where
      above : (ret : ℤ) → below_three ret ≡ false → positive ret ≡ true
      above ret h = ground arith

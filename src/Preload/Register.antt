-- ===== src/Preload/Register.antt =====
-- The functions of ld_preload.c that make a descriptor and give it an entry with a thread, or take the
-- entry away, with `__FILEIO__` and without the pool. The table's lock is held throughout.
pub mod Entry
pub mod Open
pub mod Close
use core_partitioning.Base.{
  ℕ, ◌+◌, ℤ, pos, Bool, true, false, not, ◌&&◌, ◌||◌, Option, none, some, ◌==◌, ◌!=◌, ltb,
  if◌then◌else◌, is_negative,
}
use core_partitioning.Table.{
  Ptr, null, Table, ThreadInfo, Run, ok, exit, fault, out_of_fuel, update, AddEnv, add,
  get_by_fd_all, delete, get_number, ◌>>=◌, pure,
}
use core_partitioning.Preload.Request.{Request, type_close, type_shutdown, Outcome, Call, Originals}
use core_partitioning.Preload.Thread.{Thread}
use core_partitioning.Preload.Wrapper.{Process, ask, settle, set_if_changed, directly}

abbrev pub maxthread : ℕ
maxthread = 65535

-- What a new entry gets from the system: what `fdtable_add` does, what `pthread_create` leaves in
-- `p_thread`, whether it makes a thread, and the variables of that thread before its loop.
pub record EntryEnv : Type 0 where
  pub add_env : AddEnv
  pub p_thread : ℕ
  pub create_ok : Bool
  pub started : Thread

-- `tmp->NetorFile = ...; tmp->pid = getpid(); tmp->thr_fd = ret;` and `pthread_create`.
unfoldable pub fill : EntryEnv → (kind : ℕ) (ret : ℤ) → Ptr → Table → Run Ptr
fill e kind ret p t =
    if t.live p
    then ok p (record t {
      cell = update t.cell p (record (t.cell p) {
        p_thread = e.p_thread;
        net_or_file = kind;
        pid = e.add_env.pid;
        thr_fd = ret;
      });
    })
    else fault

-- The entry for a new descriptor, or NULL. `wanted` is what the source tests beside the number of
-- threads.
unfoldable pub register : EntryEnv → (fuel kind : ℕ) (wanted : Bool) (ret : ℤ) → Table → Run Ptr
register e fuel kind wanted ret = do
  tmp ← get_by_fd_all fuel ret
  number ← (λ t. ok (get_number t) t)
  if tmp != null || is_negative ret
      then pure null
      else if wanted && ltb number maxthread
      then (do node ← add e.add_env; fill e kind ret node)
      else pure null

-- The new entry's buffer is zeroed, and its thread starts. If `pthread_create` fails, that is only
-- reported: the entry stays, without a thread.
abbrev pub with_entry : {W : Type 0} → EntryEnv → Process W → Ptr → Table → Process W
with_entry e s p t = if p == null then record s { table = t } else record s {
  table = t;
  threads = if e.create_ok then update s.threads p e.started else s.threads;
  serving = update s.serving p e.create_ok;
}

-- What follows an operation on the table, and `none` if that ends the process.
abbrev pub then_with {ℓ κ} : {A : Type ℓ} {B : Type κ} → Run A → (A → Table → Option B) → Option B
then_with m f = elim m [ ok a t ↦ f a t | exit ↦ none | fault ↦ none | out_of_fuel ↦ none ]

-- What the functions share once the original call is made: `s` has its `errno` and system.
unfoldable pub enter :
    {W : Type 0}
    → EntryEnv
    → (fuel kind : ℕ) (wanted : Bool) (ret : ℤ) → Process W
    → Option (ℤ × Process W)
enter e fuel kind wanted ret s =
    then_with (register e fuel kind wanted ret s.table) λ p t. some (ret, with_entry e s p t)

-- `errno = 0`, the call, and the former `errno` if that set none.
abbrev pub call_keeping : {W : Type 0} → Call W → Process W → Process W
call_keeping f s =
    let r = f 0 s.world in
    record s { errno = settle set_if_changed s.errno r.errno; world = r.world }

-- `ret < 3`.
abbrev pub below_three : ℤ → Bool
below_three (pos n) = ltb n 3
below_three _ = true

abbrev pub positive : ℤ → Bool
positive (pos n) = ltb 0 n
positive _ = false

module _ {W : Type 0} (o : Originals W) (e : EntryEnv) (fuel : ℕ) where
  -- The original is called with the caller's `errno` here.
  unfoldable pub socket : (domain type protocol : ℤ) → Process W → Option (ℤ × Process W)
  socket domain kind protocol s =
      let r = directly (o.socket domain kind protocol) s.errno s in enter e fuel 0 true r.0 r.1

  unfoldable pub open_path :
      (path : ℕ) → (flags : ℤ) → (mode : ℕ) → Process W → Option (ℤ × Process W)
  open_path path flags mode s =
      let original = o.open_file path flags mode in
      let ret = (original 0 s.world).value in
      if below_three ret
      then some (ret, call_keeping original s)
      else enter e fuel 1 true ret (call_keeping original s)

  unfoldable pub openat :
      (dirfd : ℤ) → (pathname : ℕ) → (flags : ℤ) → (mode : ℕ) → Process W → Option (ℤ × Process W)
  openat dirfd pathname flags mode s =
      let original = o.openat dirfd pathname flags mode in
      let ret = (original 0 s.world).value in
      enter e fuel 1 (positive ret) ret (call_keeping original s)

-- What `close` and `shutdown` share. What `fdtable_delete` returns is only reported.
unfoldable pub end_with :
    {W : Type 0}
    → Originals W
    → (original : Call W) → Request
    → (fuel : ℕ) → (fd : ℤ) → Process W
    → Option (ℤ × Process W)
end_with o original request fuel fd s = then_with (get_by_fd_all fuel fd s.table) λ p _.
    if p == null then some (directly original s.errno s) else elim (ask o p request s) [
      | none ↦ none
      | some x ↦
          then_with (delete fuel fd x.1.table)
            λ _ t. some (directly original x.1.errno (record x.1 { table = t }))
    ]

-- `original` is the original function.
unfoldable pub close :
    {W : Type 0}
    → Originals W
    → (original : ℤ → Call W) → (fuel : ℕ) → (fildes : ℤ) → Process W
    → Option (ℤ × Process W)
close o original fuel fildes s = end_with o (original fildes) (type_close fildes) fuel fildes s

unfoldable pub shutdown :
    {W : Type 0}
    → Originals W
    → (original : (socket flags : ℤ) → Call W) → (fuel : ℕ) → (socket flags : ℤ) → Process W
    → Option (ℤ × Process W)
shutdown o original fuel socket flags s =
    end_with o (original socket flags) (type_shutdown socket flags) fuel socket s

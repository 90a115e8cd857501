-- ===== src/Preload/Select.antt =====
-- The two threads of ld_preload.c that serve one kind of request each: `ku_select`, without end, and
-- `stat_syscall`, once. Both are written with `__FILEIO__`.
pub mod Answers
use core_partitioning.Base.{ℕ, ℤ, List, [], ◌∷◌}
use core_partitioning.Table.{
  Ptr, Table, Run, ok, exit, fault, out_of_fuel, load, get_by_tid, ◌>>=◌, pure,
}
use core_partitioning.Preload.Request.{Retval, Outcome, Call}

-- The member `select` of `args_data`.
pub record SelectArgs : Type 0 where
  pub n : ℤ
  pub readfds : ℕ
  pub writefds : ℕ
  pub exceptfds : ℕ
  pub stimeout : ℕ

-- Both begin so: the thread's own entry is looked up and used without a test for NULL. The result is the
-- entry and the kind for `set_cpu(1, kind)`.
pub record Entered : Type 0 where
  pub entry : Ptr
  pub kind : ℕ

unfoldable pub enter : (self fuel : ℕ) → Table → Run Entered
enter self fuel = do
  sel ← get_by_tid fuel self
  n ← load sel
  pure (record { entry = sel; kind = n.net_or_file })

-- The thread's variables: `recv_data`, at first `{1, 0, 0}`, and `errno`.
pub record Simple (W : Type 0) : Type 0 where
  pub recv_data : Retval
  pub errno : ℕ
  pub world : W

-- `recv_data.return_value = (*original)(...)`: what the call leaves in `errno` stays there.
abbrev pub answer : {W : Type 0} → Call W → Simple W → Simple W
answer f s =
    let r = f s.errno s.world in
    record {
      recv_data = record s.recv_data { return_value = r.value };
      errno = r.errno;
      world = r.world;
    }

-- The loop of `ku_select` over the requests that come, with the replies that it sends.
pub record Answered (W : Type 0) : Type 0 where
  pub replies : List Retval
  pub state : Simple W

unfoldable pub ku_select :
    {W : Type 0} → (select : SelectArgs → Call W) → List SelectArgs → Simple W → Answered W
ku_select select [] s = record { replies = []; state = s }
ku_select select (a ∷ as') s =
    let s' = answer (select a) s in
    let rest = ku_select select as' s' in
    record { replies = s'.recv_data ∷ rest.replies; state = rest.state }

-- `stat_syscall` ends after one reply, with `errno = recv_data.thr_errno`.
unfoldable pub stat_syscall :
    {W : Type 0} → (stat : (path buf : ℕ) → Call W) → (path buf : ℕ) → Simple W → Retval × Simple W
stat_syscall stat path buf s =
    let s' = answer (stat path buf) s in
    (s'.recv_data, record s' { errno = s'.recv_data.thr_errno })

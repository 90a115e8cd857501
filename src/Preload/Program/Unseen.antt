-- ===== src/Preload/Program/Unseen.antt =====
-- What an application on files and sockets sees of ld_preload.c.
use core_partitioning.Base.{
  true, ℕ, ◌≤◌, ◌<◌, ◌≡◌, inl, inr, refl, ◌∙◌, ap, ℤ, Option, some, ◌>>=◌, Returns, Returns-bind,
  Returns-mono, List, ◌∷◌, ◌++◌, arith, length, length-append, All, All-both, Option-cases,
}
use mathlib.Core.Path.{subst}
use core_partitioning.Table.{Ptr, Table, fresh_sems}
use core_partitioning.Table.Chain.{IsTable}
use core_partitioning.Table.Delete.{Found}
use core_partitioning.Table.Delete.Links.{All-without, All-at}
use core_partitioning.Table.Lookup.{get_by_fd_all-first}
use core_partitioning.Preload.Request.{Call, Originals}
use core_partitioning.Preload.Wrapper.{Process}
use core_partitioning.Preload.Wrapper.Same.{Documented}
use core_partitioning.Preload.Register.{EntryEnv, maxthread, close, shutdown, end_with}
use core_partitioning.Preload.Register.Entry.{Supplied}
use core_partitioning.Preload.Register.Close.{Closed, ends-Closed}
use core_partitioning.Preload.Program.{
  AppCall, open_call, openat_call, socket_call, read_call, recvfrom_call, getpeername_call,
  epoll_ctl_call, close_call, shutdown_call, Program, done, then_do, step, original, run_program,
  run_plain,
}
use core_partitioning.Preload.Program.Quiet.{
  Quiet, unchanged-Quiet, Kept, read-Kept, recvfrom-Kept, getpeername-Kept, epoll_ctl-Kept,
}
use core_partitioning.Preload.Program.Kept.{open-Kept, openat-Kept, socket-Kept, first-Hit}

module _ {W : Type 0} (o : Originals W) (close_original : ℤ → Call W)
    (shutdown_original : (fd flags : ℤ) → Call W) (fuel : ℕ) (enough : maxthread < fuel) where
  Closed-Kept :
      (f : Call W) (s : Process W) (x : Ptr) (ys zs : List Ptr) (m : Option (ℤ × Process W))
      → All (λ y. (s.table.cell y).sems ≡ fresh_sems) (ys ++ x ∷ zs)
      → All (λ y. s.serving y ≡ true) (ys ++ x ∷ zs)
      → length (ys ++ x ∷ zs) ≤ maxthread
      → Returns (Closed f s (ys ++ zs) x) m
      → Returns (Kept f s) m
  Closed-Kept f s x ys zs m sems serving few h =
      Returns-mono (Closed f s (ys ++ zs) x) (Kept f s) m h λ r c. (
        record { value = c.value; errno = c.errno; world = c.world },
        record {
          xs = ys ++ zs;
          table = c.table;
          sems =
              All-both (λ y. (s.table.cell y).sems ≡ fresh_sems)
                (λ y. r.1.table.cell y ≡ s.table.cell y) _ (ys ++ zs)
                (λ y a b. ap (λ n. n.sems) b ∙ a)
                (All-without (λ y. (s.table.cell y).sems ≡ fresh_sems) x ys zs sems) c.others;
          serving =
              All-both (λ y. s.serving y ≡ true) (λ y. r.1.serving y ≡ s.serving y) _ (ys ++ zs)
                (λ y a b. b ∙ a) (All-without (λ y. s.serving y ≡ true) x ys zs serving) c.alive;
          few = omega (arith, few, length-append ys zs, length-append ys (x ∷ zs));
        },
      )

  -- On an entry that the look-up gets to.
  hit-Kept :
      (s : Process W) (fd flags : ℤ) (x : Ptr) (ys zs : List Ptr)
      → (v : IsTable s.table (ys ++ x ∷ zs)) → Found s.table x ys zs v fd
      → All (λ y. (s.table.cell y).sems ≡ fresh_sems) (ys ++ x ∷ zs)
      → All (λ y. s.serving y ≡ true) (ys ++ x ∷ zs)
      → length (ys ++ x ∷ zs) ≤ maxthread
      → Returns (Kept (close_original fd) s) (close o close_original fuel fd s)
        × Returns
            (Kept (shutdown_original fd flags) s)
            (shutdown o shutdown_original fuel fd flags s)
  hit-Kept s fd flags x ys zs v f sems serving few =
      let ended =
        ends-Closed s x ys zs v o close_original shutdown_original fd flags fuel f
          (All-at (λ y. (s.table.cell y).sems ≡ fresh_sems) x ys zs sems)
          (All-at (λ y. s.serving y ≡ true) x ys zs serving) (omega (arith, few, enough))
          (omega (arith, few, v.counted)) in
      (
        Closed-Kept (close_original fd) s x ys zs _ sems serving few ended.0,
        Closed-Kept (shutdown_original fd flags) s x ys zs _ sems serving few ended.1,
      )

  ends-Kept :
      (s : Process W) (fd flags : ℤ)
      → Quiet s
      → Returns (Kept (close_original fd) s) (close o close_original fuel fd s)
        × Returns
            (Kept (shutdown_original fd flags) s)
            (shutdown o shutdown_original fuel fd flags s)
  unfolding close shutdown end_with
  ends-Kept s fd flags q = elim (first-Hit s.table.cell fd q.xs) [
    | inl out ↦
        rw (get_by_fd_all-first s.table q.xs q.table fuel (omega (arith, q.few, enough)) fd, out)
          (
            (record { value = refl; errno = refl; world = refl }, unchanged-Quiet s _ q refl refl),
            (record { value = refl; errno = refl; world = refl }, unchanged-Quiet s _ q refl refl),
          )
    | inr h ↦
        hit-Kept s fd flags h.x h.ys h.zs (subst (λ l. IsTable s.table l) h.split q.table)
          (record { shown = h.shown; missed = h.missed; going = h.going; hit = h.hit })
          (subst (All (λ y. (s.table.cell y).sems ≡ fresh_sems)) h.split q.sems)
          (subst (All (λ y. s.serving y ≡ true)) h.split q.serving)
          (subst (λ l. length l ≤ maxthread) h.split q.few)
  ]

  -- For a call that may make an entry the system has a node, a buffer and a thread to give.
  abbrev pub Gives : EntryEnv → AppCall → Table → Type 0
  Gives e (open_call path flags mode) t = Supplied e t
  Gives e (openat_call dirfd path flags mode) t = Supplied e t
  Gives e (socket_call domain kind protocol) t = Supplied e t
  Gives e _ t = Unit {0}

  -- So it does at each call of the program.
  abbrev pub Supplies : (Process W → EntryEnv) → Program → Process W → Type 0
  Supplies env done s = Unit {0}
  Supplies env (then_do c k) s =
      Gives (env s) c s.table
      × ((r : ℤ × Process W)
          → step o close_original shutdown_original env fuel c s ≡ some r
          → Supplies env (k r.0) r.1)

  module _ (env : Process W → EntryEnv)
      (documented : (c : AppCall)
        → Documented (original o close_original shutdown_original c)) where
    step-Kept :
        (c : AppCall) (s : Process W)
        → Quiet s
        → Gives (env s) c s.table
        → Returns
            (Kept (original o close_original shutdown_original c) s)
            (step o close_original shutdown_original env fuel c s)
    unfolding step
    step-Kept (open_call path flags mode) s q g =
        open-Kept (env s) fuel enough s q g o path flags mode
          (documented (open_call path flags mode))
    step-Kept (openat_call dirfd path flags mode) s q g =
        openat-Kept (env s) fuel enough s q g o dirfd path flags mode
          (documented (openat_call dirfd path flags mode))
    step-Kept (socket_call domain kind protocol) s q g =
        socket-Kept (env s) fuel enough s q g o domain kind protocol
    step-Kept (read_call fd buf n) s q g =
        read-Kept o fuel enough s q fd buf n (documented (read_call fd buf n))
    step-Kept (recvfrom_call fd buf n flags addr addrlen) s q g =
        recvfrom-Kept o fuel enough s q fd buf n flags addr addrlen
          (documented (recvfrom_call fd buf n flags addr addrlen))
    step-Kept (getpeername_call fd addr addrlen) s q g =
        getpeername-Kept o fuel enough s q fd addr addrlen
          (documented (getpeername_call fd addr addrlen))
    step-Kept (epoll_ctl_call epfd op fd events) s q g =
        epoll_ctl-Kept o fuel enough s q epfd op fd events
          (documented (epoll_ctl_call epfd op fd events))
    step-Kept (close_call fd) s q g = (ends-Kept s fd fd q).0
    step-Kept (shutdown_call fd flags) s q g = (ends-Kept s fd flags q).1

    -- On a table with at most MAXTHREAD entries, each with a waiting thread and no call under way,
    -- with more fuel than that, if the system has a node, a buffer and a thread for each new entry
    -- (`pthread_create` succeeds), and the original functions treat `errno` as documented: an
    -- application that makes any calls of `open`, `openat`, `socket`, `read`, `recvfrom`,
    -- `getpeername`, `epoll_ctl`, `close` and `shutdown`, on descriptors in the table or not, each
    -- chosen from the results so far, ends, and with the functions of ld_preload.c it sees the
    -- results, the `errno` and the system that it would with the original functions; the table is
    -- one with at most MAXTHREAD entries, each with a waiting thread and no call under way, again.
    pub program-Unseen :
        (p : Program) (s : Process W)
        → Quiet s
        → Supplies env p s
        → Returns
            (λ r.
              ((r.0, r.1.errno, r.1.world)
                ≡ run_plain o close_original shutdown_original p s.errno s.world)
              × Quiet r.1)
            (run_program o close_original shutdown_original env fuel p s)
    unfolding run_program run_plain
    program-Unseen done s q g = (refl, q)
    program-Unseen (then_do c k) s q g =
        let f = original o close_original shutdown_original c in
        elim (Option-cases (step o close_original shutdown_original env fuel c s)) [
          | inl e ↦ absurd (rw e at (step-Kept c s q g.0))
          | inr (r, e) ↦
              let kept : Kept f s r = rw e at (step-Kept c s q g.0) in
              rw (e, ◌>>=◌)
                (Returns-bind _ _
                  (run_program o close_original shutdown_original env fuel (k r.0) r.1) _
                  (program-Unseen (k r.0) r.1 kept.1 (g.1 r e))
                  λ rest h. (
                    ap (λ t. (r.0 ∷ t.0, t.1, t.2)) h.0
                        ∙ rw (kept.0.value, kept.0.errno, kept.0.world) refl,
                    h.1,
                  ))
        ]

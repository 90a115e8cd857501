-- ===== src/Preload/Epoll/Locks.antt =====
-- What `epoll_create` of ld_preload.c leaves, its locks included.
use core_partitioning.Base.{
  ℕ, ◌+◌, ◌<◌, ◌≡◌, refl, ap, ℤ, is_negative, true, false, some, Returns, Returns-bind, List,
  length, arith, ◌!=◌, ◌||◌, Bool, ◌∙◌, ◌==ℤ◌,
}
use core_partitioning.Table.{Ptr, null, ok, get_by_fd_all}
use core_partitioning.Table.Chain.{IsTable}
use core_partitioning.Table.Lookup.{first, visible, get_by_fd_all-first}
use core_partitioning.Preload.Request.{Originals}
use core_partitioning.Preload.Wrapper.{Process}
use core_partitioning.Preload.Register.{EntryEnv, enter, maxthread, call_keeping, positive}
use core_partitioning.Preload.Register.Entry.{Supplied, register_refuses}
use core_partitioning.Preload.Register.Open.{Opened, enter-Opened, positive_shown}
use core_partitioning.Preload.Epoll.{epoll_create}

-- The locks are those that the caller had before.
pub record Created {W : Type 0} (e : EntryEnv) (fuel : ℕ) (xs : List Ptr) (ret : ℤ) (before : ℕ)
    (s s' : Process W) (r : ℤ × ℕ × Process W) : Type 0 where
  pub opened : Opened e fuel 0 xs ret s s' (r.0, r.2)
  pub locks : r.1 ≡ before

or_true : (b : Bool) → (b || true) ≡ true
or_true true = refl
or_true false = refl

module _ {W : Type 0} (o : Originals W) (e : EntryEnv) (s : Process W) (xs : List Ptr)
    (v : IsTable s.table xs) (fuel : ℕ) (size : ℤ) (locks : ℕ) where
  -- On a table, with more fuel than entries, if the original function fails, `epoll_create` returns
  -- its result and sets `errno` as it did, but the caller keeps two read locks of the table that it
  -- did not have before.
  pub epoll_create_stuck :
      is_negative (o.epoll_create size 0 s.world).value ≡ true
      → length xs < fuel
      → epoll_create o e fuel size locks s
        ≡ some
            ((o.epoll_create size 0 s.world).value, locks + 2, call_keeping (o.epoll_create size) s)
  unfolding epoll_create enter
  epoll_create_stuck neg enough =
      let ret = (o.epoll_create size 0 s.world).value in
      let found = get_by_fd_all-first s.table xs v fuel enough ret in
      let known : Ptr = first s.table.cell (λ n. n.thr_fd ==ℤ ret) (visible s.table.cell xs) in
      let h : (known != null || is_negative ret) ≡ true =
        ap (λ b. known != null || b) neg ∙ or_true (known != null) in
      rw (found, register_refuses e s.table fuel 0 true ret known found h, h)
        (ap (λ n. some (ret, n, call_keeping (o.epoll_create size) s)) (omega arith))

  -- On a table with room, with fuel for one entry more, if the system supplies a node, a buffer and
  -- a thread (`pthread_create` succeeds), and the new descriptor is above 0 and not in the table:
  -- `epoll_create` returns it with the effect of the original function, called with `errno` 0, the
  -- descriptor has an idle entry with a thread, and the caller has the locks that it had before.
  pub epoll_create-Created :
      Supplied e s.table
      → s.table.thr_num < maxthread
      → length xs + 1 < fuel
      → positive (o.epoll_create size 0 s.world).value ≡ true
      → get_by_fd_all fuel (o.epoll_create size 0 s.world).value s.table ≡ ok null s.table
      → Returns
          (Created e fuel xs
            (o.epoll_create size 0 s.world).value
            locks
            s
            (call_keeping (o.epoll_create size) s))
          (epoll_create o e fuel size locks s)
  unfolding epoll_create
  epoll_create-Created supplied room enough more out =
      let ret = (o.epoll_create size 0 s.world).value in
      let called = call_keeping (o.epoll_create size) s in
      rw (out, (positive_shown ret more).1)
        (Returns-bind (Opened e fuel 0 xs ret s called) _ (enter e fuel 0 true ret called) _
          (enter-Opened e s xs v supplied room fuel enough 0 ret called refl out more)
          (λ r h. record { opened = h; locks = omega arith }))

-- ===== src/Preload/Program/Quiet.antt =====
-- A call of ld_preload.c that is passed to a thread, on a table where no other call is under way and each entry has a thread.
use core_partitioning.Base.{
  true, false, ℕ, ◌≤◌, ◌<◌, ◌≡◌, inl, inr, refl, ◌∙◌, ap, ℤ, Option, ◌>>=◌, Returns, Returns-mono,
  Returns-both, List, arith, length, All, All-mono, ne→==, ◌==◌, ◌==ℤ◌, ◌&&◌, Bool-cases,
}
use core_partitioning.Table.{Ptr, null, ok, update, fresh_sems, get_by_fd}
use core_partitioning.Table.Chain.{IsTable, IsTable-cell}
use core_partitioning.Table.Lookup.{first, visible, visible_lookups}
use core_partitioning.Table.Lookup.Found.{get_by_fd-All}
use core_partitioning.Preload.Request.{
  Request, Retval, Call, Originals, type_read, type_recvfrom, type_getpeername, type_epoll_ctl,
}
use core_partitioning.Preload.Thread.{Thread, round, execute, is_last}
use core_partitioning.Preload.Wrapper.{
  Process, forward, set_if_changed, size, value, read, recvfrom, getpeername, epoll_ctl,
}
use core_partitioning.Preload.Wrapper.Forward.{
  Idle, Carries, ask-round, forward-directly, forward-Forwarded, call_size-Carries,
  call_value-Carries,
}
use core_partitioning.Preload.Wrapper.Same.{Documented, Same, Documented-Same}
use core_partitioning.Preload.Register.{maxthread}
use core_partitioning.Preload.Register.Close.{answered, same_fd}

-- The table holds entries, at most `maxthread`, each with a thread that waits and no call under way.
pub record Quiet {W : Type 0} (s : Process W) : Type 0 where
  pub xs : List Ptr
  pub table : IsTable s.table xs
  pub sems : All (λ x. (s.table.cell x).sems ≡ fresh_sems) xs
  pub serving : All (λ x. s.serving x ≡ true) xs
  pub few : length xs ≤ maxthread

-- After a call that the caller makes itself.
pub unchanged-Quiet :
    {W : Type 0} (s s' : Process W)
    → Quiet s
    → s'.table ≡ s.table
    → s'.serving ≡ s.serving
    → Quiet s'
unchanged-Quiet s s' q e h = record {
  xs = q.xs;
  table = rw e q.table;
  sems = rw e q.sems;
  serving = rw h q.serving;
  few = q.few;
}

-- After a call that the thread of `p` answered and went on from.
answered-Quiet :
    {W : Type 0} (s s' : Process W) (p : Ptr)
    → Quiet s
    → s'.table ≡ answered s.table p
    → s'.serving ≡ update s.serving p true
    → Quiet s'
answered-Quiet s s' p q e h = record {
  xs = q.xs;
  table = rw e (
      IsTable-cell s.table q.xs (answered s.table p).cell q.table
        (rw (same_fd s.table p s.table.tail) q.table.tail_marked));
  sems =
      rw e
        (All-mono (λ x. (s.table.cell x).sems ≡ fresh_sems) _ q.xs (λ x k. sems_free x k) q.sems);
  serving = rw h (All-mono (λ x. s.serving x ≡ true) _ q.xs (λ x k. ground (arith, k)) q.serving);
  few = q.few;
}
  where
    sems_free :
        (x : Ptr)
        → (s.table.cell x).sems ≡ fresh_sems
        → ((answered s.table p).cell x).sems ≡ fresh_sems
    sems_free x k = elim (Bool-cases (x == p)) [ inl c ↦ ground arith | inr c ↦ ground arith ]

-- What a call does: the caller sees what it would of `f`, and the process is as it should be.
abbrev pub Kept : {W : Type 0} → Call W → Process W → ℤ × Process W → Type 0
Kept f s r = Same f s r × Quiet r.1

module _ {W : Type 0} (o : Originals W) (fuel : ℕ) (enough : maxthread < fuel) (s : Process W)
    (q : Quiet s) (fd : ℤ) (kind : ℕ) (request : Request) (result : Retval → ℤ) (f : Call W)
    (d : Documented f) (stays : is_last request ≡ false)
    (carries : (t : Thread) → Carries f result s.world (round o request t s.world)) where
  abbrev call : Option (ℤ × Process W)
  call = forward o (get_by_fd fuel fd kind) request result set_if_changed f s.errno s

  forward_leaves :
      (p : Ptr)
      → Idle s (get_by_fd fuel fd kind s.table) p
      → Returns
          (λ r. (r.1.table ≡ answered s.table p) × (r.1.serving ≡ update s.serving p true))
          call
  unfolding forward
  forward_leaves p idle =
      rw
        (
          forward,
          idle.entry,
          ne→== p null idle.node,
          ask-round o request s p idle.sems idle.serving,
          ◌>>=◌,
          stays,
        )
        (refl, refl)

  forward_idle-Kept :
      (p : Ptr) → Idle s (get_by_fd fuel fd kind s.table) p → Returns (Kept f s) call
  forward_idle-Kept p idle =
      Returns-both _ _ call
        (Documented-Same o fuel s p f _ d (
          forward-Forwarded o (get_by_fd fuel fd kind) request f s f result set_if_changed s.errno p
            (carries (s.threads p)) idle))
        (Returns-mono _ (λ r. Quiet r.1) call (forward_leaves p idle)
          λ r e. answered-Quiet s r.1 p q e.0 e.1)

  -- Whether the descriptor is in the table or not.
  pub forward-Kept : Returns (Kept f s) call
  forward-Kept =
      let p =
        first s.table.cell (λ n. n.thr_fd ==ℤ fd && n.net_or_file == kind)
          (visible s.table.cell q.xs) in
      let found : get_by_fd fuel fd kind s.table ≡ ok p s.table =
        (visible_lookups s.table q.xs q.table fuel (omega (arith, q.few)) fd kind 0).1 in
      elim (Bool-cases (p == null)) [
        | inl e ↦
            rw
              (forward-directly o (get_by_fd fuel fd kind) request f s result set_if_changed s.errno
                (found ∙ ap (λ p'. ok p' s.table) (ground arith)))
              (record { value = refl; errno = refl; world = refl }, unchanged-Quiet s _ q refl refl)
        | inr e ↦ forward_idle-Kept p (record {
          entry = found;
          node = ground arith;
          sems =
              get_by_fd-All s.table q.xs p fuel fd kind (λ x. (s.table.cell x).sems ≡ fresh_sems)
                q.table (omega (arith, q.few)) found (ground arith) q.sems;
          serving =
              get_by_fd-All s.table q.xs p fuel fd kind (λ x. s.serving x ≡ true) q.table
                (omega (arith, q.few)) found (ground arith) q.serving;
        })
      ]

module _ {W : Type 0} (o : Originals W) (fuel : ℕ) (enough : maxthread < fuel) (s : Process W)
    (q : Quiet s) where
  pub read-Kept :
      (fd : ℤ) (buf nbyte : ℕ)
      → Documented (o.read fd buf nbyte)
      → Returns (Kept (o.read fd buf nbyte) s) (read o fuel fd buf nbyte s)
  unfolding read round execute
  read-Kept fd buf nbyte d =
      forward-Kept o fuel enough s q fd 1 (type_read fd buf nbyte) size (o.read fd buf nbyte) d refl
        (λ t. call_size-Carries (o.read fd buf nbyte) t s.world)

  pub recvfrom-Kept :
      (fd : ℤ) (buf n : ℕ) (flags : ℤ) (addr addrlen : ℕ)
      → Documented (o.recvfrom fd buf n flags addr addrlen)
      → Returns
          (Kept (o.recvfrom fd buf n flags addr addrlen) s)
          (recvfrom o fuel fd buf n flags addr addrlen s)
  unfolding recvfrom round execute
  recvfrom-Kept fd buf n flags addr addrlen d =
      forward-Kept o fuel enough s q fd 0 (type_recvfrom fd buf n flags addr addrlen) size
        (o.recvfrom fd buf n flags addr addrlen) d refl
        (λ t. call_size-Carries (o.recvfrom fd buf n flags addr addrlen) t s.world)

  pub getpeername-Kept :
      (fd : ℤ) (addr addrlen : ℕ)
      → Documented (o.getpeername fd addr addrlen)
      → Returns (Kept (o.getpeername fd addr addrlen) s) (getpeername o fuel fd addr addrlen s)
  unfolding getpeername round execute
  getpeername-Kept fd addr addrlen d =
      forward-Kept o fuel enough s q fd 0 (type_getpeername fd addr addrlen) value
        (o.getpeername fd addr addrlen) d refl
        (λ t. call_value-Carries (o.getpeername fd addr addrlen) t s.world)

  pub epoll_ctl-Kept :
      (epfd op fd : ℤ) (events : ℕ)
      → Documented (o.epoll_ctl epfd op fd events)
      → Returns (Kept (o.epoll_ctl epfd op fd events) s) (epoll_ctl o fuel epfd op fd events s)
  unfolding epoll_ctl round execute
  epoll_ctl-Kept epfd op fd events d =
      forward-Kept o fuel enough s q epfd 0 (type_epoll_ctl epfd op fd events) value
        (o.epoll_ctl epfd op fd events) d refl
        (λ t. call_value-Carries (o.epoll_ctl epfd op fd events) t s.world)

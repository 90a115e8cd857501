-- ===== src/Preload/Select/Answers.antt =====
-- What the threads of `ku_select` and `stat_syscall` in ld_preload.c reply.
use core_partitioning.Base.{
  ℕ, ◌+◌, ◌<◌, ◌≡◌, refl, ap, ℤ, List, [], ◌∷◌, arith, length, All, true, false, ◌==◌,
}
use core_partitioning.Table.{Ptr, Table, ok, fault, load, ◌>>=◌}
use core_partitioning.Table.Chain.{IsTable}
use core_partitioning.Table.Lookup.{first_skip, visible, visible_misses, visible_lookups}
use core_partitioning.Preload.Request.{Retval, Call}
use core_partitioning.Preload.Start.{gone, start}
use core_partitioning.Preload.Select.{SelectArgs, enter, Simple, answer, ku_select}

-- The replies are those of the calls, made one after the other from `errno` and the state of the system,
-- with the error number `e`.
abbrev pub Replies :
    {W : Type 0}
    → (SelectArgs → Call W)
    → (e errno : ℕ) → W
    → List SelectArgs
    → List Retval
    → Type 0
Replies select e errno w [] [] = Unit {0}
Replies select e errno w (a ∷ as') (r ∷ rs) =
    (r.return_value ≡ (select a errno w).value)
    × (r.thr_errno ≡ e)
    × Replies select e (select a errno w).errno (select a errno w).world as' rs
Replies select e errno w _ _ = ⊥

-- The thread of `ku_select` answers every request with the result of the original function, called
-- with the `errno` that the calls before it have left, but the error number of all its replies is the
-- one of its first `recv_data`, whatever the calls set.
pub ku_select-Replies :
    {W : Type 0} (select : SelectArgs → Call W) (as' : List SelectArgs) (s : Simple W)
    → Replies select s.recv_data.thr_errno s.errno s.world as' (ku_select select as' s).replies
unfolding ku_select
ku_select-Replies select [] s = tt
ku_select-Replies select (a ∷ as') s =
    (refl, refl, ku_select-Replies select as' (answer (select a) s))

-- If no entry has the thread's id, on a table with more fuel than entries, `ku_select` and `stat_syscall`
-- read through NULL, where `syscall_thread` ends.
pub enter_faults :
    (t : Table) (xs : List Ptr) (self pid fuel : ℕ)
    → IsTable t xs
    → length xs < fuel
    → All (λ x. ((t.cell x).p_thread == self) ≡ false) xs
    → (enter self fuel t ≡ fault) × (start self pid fuel t ≡ ok gone t)
unfolding enter start load
enter_faults t xs self pid fuel v enough out =
    let none_found =
      first_skip t.cell (λ n. n.p_thread == self) (visible t.cell xs)
        (visible_misses t.cell (λ x. ((t.cell x).p_thread == self) ≡ false) xs out) in
    let looked = (visible_lookups t xs v fuel enough (core_partitioning.Base.pos 0) 0 self).2 in
    (rw (looked, ◌>>=◌, none_found, v.null_dead) refl, rw (looked, ◌>>=◌, none_found) refl)

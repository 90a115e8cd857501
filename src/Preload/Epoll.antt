-- ===== src/Preload/Epoll.antt =====
-- `epoll_create` of ld_preload.c, without the pool, with the read locks that the caller has on
-- `table_rwlock`.
pub mod Locks
use core_partitioning.Base.{
  ℕ, ◌+◌, ◌-◌, ℤ, Bool, true, ◌||◌, Option, none, some, ◌>>=◌, ◌!=◌, if◌then◌else◌, is_negative,
}
use core_partitioning.Table.{null, Run, ok, exit, fault, out_of_fuel, get_by_fd_all}
use core_partitioning.Preload.Request.{Originals}
use core_partitioning.Preload.Wrapper.{Process}
use core_partitioning.Preload.Register.{EntryEnv, enter, call_keeping, then_with}

-- `pthread_rwlock_rdlock` and `pthread_rwlock_unlock` of one thread.
abbrev pub rdlock : ℕ → ℕ
rdlock locks = locks + 1

abbrev pub unlock : ℕ → ℕ
unlock locks = locks - 1

-- The result, the locks that the caller has then, and the process.
unfoldable pub epoll_create :
    {W : Type 0}
    → Originals W
    → EntryEnv
    → (fuel : ℕ) → (size : ℤ) → (locks : ℕ) → Process W
    → Option (ℤ × ℕ × Process W)
epoll_create o e fuel size locks s =
    let ret = (o.epoll_create size 0 s.world).value in
    let held = rdlock locks in
    then_with (get_by_fd_all fuel ret s.table) λ known _.
      enter e fuel 0 true ret (call_keeping (o.epoll_create size) s) >>= λ r.
      some (r.0, (if known != null || is_negative ret then rdlock held else unlock held), r.1)

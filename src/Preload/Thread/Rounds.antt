-- ===== src/Preload/Thread/Rounds.antt =====
-- The loop of `syscall_thread` in ld_preload.c: how often it asks for a core, and when it ends.
use core_partitioning.Base.{
  ℕ, ◌+◌, ◌*◌, ◌<◌, ◌≡◌, ◌⊎◌, refl, inl, inr, ℤ, negsuc, Bool, true, false, ◌||◌, List, [], ◌∷◌,
  ◌++◌, arith, length, All, ◌==◌, ◌==ℤ◌, Bool-cases,
}
use core_partitioning.Preload.Request.{
  Request, type_close, type_shutdown, type_socket, type_bind, type_listen, type_accept,
  type_connect, type_send, type_recv, type_setsockopt, type_getsockopt, type_read, type_write,
  type_poll, type_ppoll, type_epoll_wait, type_epoll_create, type_epoll_ctl, type_socketpair,
  type_sendto, type_recvfrom, type_sendmsg, type_recvmsg, type_getsockname, type_getpeername,
  type_open, type_openat, type_lseek, type_lseek64, type_stat, type_stat64, type_other, Call,
  Originals,
}
use core_partitioning.Preload.Thread.{
  Thread, call_value, call_size, execute, begin, round, is_last, serve, dynamic_thread_syscallcount,
  break_on_error,
}

abbrev pub is_openat : Request → Bool
is_openat (type_openat _ _ _ _) = true
is_openat _ = false

-- A call leaves the two counters alone, and the flag unless it is an `openat`.
record Spared (r : Request) (t t' : Thread) : Type 0 where
  counter : t'.syscall_counter ≡ t.syscall_counter
  placed : t'.placed ≡ t.placed
  flag : (is_openat r ≡ true) ⊎ (t'.loop_break ≡ t.loop_break)

module _ {W : Type 0} (r : Request) (f : Call W) (t : Thread) (w : W) where
  call_value-Spared : Spared r t (call_value f t w).0
  unfolding call_value
  call_value-Spared = elim (Bool-cases ((f 0 w).errno == 0)) [
    | inl e ↦ rw e (record { counter = refl; placed = refl; flag = inr refl })
    | inr e ↦ rw e (record { counter = refl; placed = refl; flag = inr refl })
  ]

  call_size-Spared : Spared r t (call_size f t w).0
  unfolding call_size
  call_size-Spared = elim (Bool-cases ((f 0 w).errno == 0)) [
    | inl e ↦ rw e (record { counter = refl; placed = refl; flag = inr refl })
    | inr e ↦ rw e (record { counter = refl; placed = refl; flag = inr refl })
  ]

module _ {W : Type 0} (o : Originals W) (t : Thread) (w : W) where
  openat_spares :
      (d : ℤ) (p : ℕ) (f : ℤ) (m : ℕ)
      → Spared (type_openat d p f m) t (break_on_error (call_value (o.openat d p f m) t w)).0
  openat_spares d p f m =
      let c = call_value-Spared (type_openat d p f m) (o.openat d p f m) t w in
      elim (Bool-cases
        ((call_value (o.openat d p f m) t w).0.recv_data.return_value ==ℤ negsuc 0)) [
          | inl e ↦ rw e (record { counter = c.counter; placed = c.placed; flag = inl refl })
          | inr e ↦ rw e (record { counter = c.counter; placed = c.placed; flag = inl refl })
        ]

  execute-Spared : (r : Request) → Spared r t (execute o r t w).0
  unfolding execute
  execute-Spared (type_socket _ _ _) = call_value-Spared _ _ t w
  execute-Spared (type_bind _ _ _) = call_value-Spared _ _ t w
  execute-Spared (type_listen _ _) = call_value-Spared _ _ t w
  execute-Spared (type_accept _ _ _) = call_value-Spared _ _ t w
  execute-Spared (type_connect _ _ _) = call_value-Spared _ _ t w
  execute-Spared (type_send _ _ _ _) = call_size-Spared _ _ t w
  execute-Spared (type_recv _ _ _ _) = call_size-Spared _ _ t w
  execute-Spared (type_setsockopt _ _ _ _ _) = call_value-Spared _ _ t w
  execute-Spared (type_getsockopt _ _ _ _ _) = call_value-Spared _ _ t w
  execute-Spared (type_read _ _ _) = call_size-Spared _ _ t w
  execute-Spared (type_write _ _ _) = call_size-Spared _ _ t w
  execute-Spared (type_close _) = record { counter = refl; placed = refl; flag = inr refl }
  execute-Spared (type_poll _ _ _) = call_value-Spared _ _ t w
  execute-Spared (type_ppoll _ _ _ _) = call_value-Spared _ _ t w
  execute-Spared (type_epoll_wait _ _ _ _) = call_value-Spared _ _ t w
  execute-Spared (type_epoll_create _) = call_value-Spared _ _ t w
  execute-Spared (type_epoll_ctl _ _ _ _) = call_value-Spared _ _ t w
  execute-Spared (type_socketpair _ _ _ _) = call_value-Spared _ _ t w
  execute-Spared (type_sendto _ _ _ _ _ _) = call_size-Spared _ _ t w
  execute-Spared (type_recvfrom _ _ _ _ _ _) = call_size-Spared _ _ t w
  execute-Spared (type_sendmsg _ _ _) = call_size-Spared _ _ t w
  execute-Spared (type_recvmsg _ _ _) = call_size-Spared _ _ t w
  execute-Spared (type_shutdown _ _) = record { counter = refl; placed = refl; flag = inr refl }
  execute-Spared (type_getsockname _ _ _) = call_value-Spared _ _ t w
  execute-Spared (type_getpeername _ _ _) = call_value-Spared _ _ t w
  execute-Spared (type_open _ _ _) = call_value-Spared _ _ t w
  execute-Spared (type_openat d p f m) = openat_spares d p f m
  execute-Spared (type_lseek _ _ _) = call_value-Spared _ _ t w
  execute-Spared (type_lseek64 _ _ _) = call_value-Spared _ _ t w
  execute-Spared (type_stat _ _) = call_value-Spared _ _ t w
  execute-Spared (type_stat64 _ _) = call_value-Spared _ _ t w
  execute-Spared (type_other _) = record { counter = refl; placed = refl; flag = inr refl }

module _ {W : Type 0} (o : Originals W) (r : Request) (t : Thread) (w : W) where
  abbrev after : Thread
  after = (round o r t w).0

  begin_counts :
      t.syscall_counter < dynamic_thread_syscallcount
      → ((begin t).placed * dynamic_thread_syscallcount + (begin t).syscall_counter
          ≡ t.placed * dynamic_thread_syscallcount + t.syscall_counter + 1)
        × ((begin t).syscall_counter < dynamic_thread_syscallcount)
  unfolding begin
  begin_counts h = ground arith

  -- One round takes the pair of counters on by one.
  round_counts :
      t.syscall_counter < dynamic_thread_syscallcount
      → (after.placed * dynamic_thread_syscallcount + after.syscall_counter
          ≡ t.placed * dynamic_thread_syscallcount + t.syscall_counter + 1)
        × (after.syscall_counter < dynamic_thread_syscallcount)
  unfolding round
  round_counts h =
      let c = execute-Spared o (begin t) w r in rw (c.counter, c.placed) (begin_counts h)

  round_flag : is_openat r ≡ false → t.loop_break ≡ false → after.loop_break ≡ false
  unfolding round begin
  round_flag h k = let c = execute-Spared o (begin t) w r in ground arith

-- From a counter below 5 the loop calls `set_cpu` once for every fifth request that it answers, and
-- leaves the counter below 5.
pub serve_places :
    {W : Type 0} (o : Originals W) (rs : List Request) (t : Thread) (w : W)
    → t.syscall_counter < dynamic_thread_syscallcount
    → ((serve o rs t w).thread.placed * dynamic_thread_syscallcount
          + (serve o rs t w).thread.syscall_counter
        ≡ t.placed * dynamic_thread_syscallcount
          + t.syscall_counter
          + length (serve o rs t w).replies)
      × ((serve o rs t w).thread.syscall_counter < dynamic_thread_syscallcount)
unfolding serve
serve_places o [] t w h = omega (arith, h)
serve_places o (r ∷ rs) t w h =
    let q = round_counts o r t w h in
    elim (Bool-cases ((round o r t w).0.loop_break || is_last r)) [
      | inl e ↦ rw e (omega (arith, q))
      | inr e ↦ rw e (omega (arith, q, serve_places o rs (round o r t w).0 (round o r t w).1 q.1))
    ]

-- Neither a `close` nor a `shutdown`, nor an `openat`, which may end the loop.
abbrev pub Plain : Request → Type 0
Plain (type_close _) = ⊥
Plain (type_shutdown _ _) = ⊥
Plain (type_openat _ _ _ _) = ⊥
Plain _ = Unit {0}

Plain-stays : (r : Request) → Plain r → (is_last r ≡ false) × (is_openat r ≡ false)
Plain-stays (type_socket _ _ _) h = (refl, refl)
Plain-stays (type_bind _ _ _) h = (refl, refl)
Plain-stays (type_listen _ _) h = (refl, refl)
Plain-stays (type_accept _ _ _) h = (refl, refl)
Plain-stays (type_connect _ _ _) h = (refl, refl)
Plain-stays (type_send _ _ _ _) h = (refl, refl)
Plain-stays (type_recv _ _ _ _) h = (refl, refl)
Plain-stays (type_setsockopt _ _ _ _ _) h = (refl, refl)
Plain-stays (type_getsockopt _ _ _ _ _) h = (refl, refl)
Plain-stays (type_read _ _ _) h = (refl, refl)
Plain-stays (type_write _ _ _) h = (refl, refl)
Plain-stays (type_close _) h = absurd h
Plain-stays (type_poll _ _ _) h = (refl, refl)
Plain-stays (type_ppoll _ _ _ _) h = (refl, refl)
Plain-stays (type_epoll_wait _ _ _ _) h = (refl, refl)
Plain-stays (type_epoll_create _) h = (refl, refl)
Plain-stays (type_epoll_ctl _ _ _ _) h = (refl, refl)
Plain-stays (type_socketpair _ _ _ _) h = (refl, refl)
Plain-stays (type_sendto _ _ _ _ _ _) h = (refl, refl)
Plain-stays (type_recvfrom _ _ _ _ _ _) h = (refl, refl)
Plain-stays (type_sendmsg _ _ _) h = (refl, refl)
Plain-stays (type_recvmsg _ _ _) h = (refl, refl)
Plain-stays (type_shutdown _ _) h = absurd h
Plain-stays (type_getsockname _ _ _) h = (refl, refl)
Plain-stays (type_getpeername _ _ _) h = (refl, refl)
Plain-stays (type_open _ _ _) h = (refl, refl)
Plain-stays (type_openat _ _ _ _) h = absurd h
Plain-stays (type_lseek _ _ _) h = (refl, refl)
Plain-stays (type_lseek64 _ _ _) h = (refl, refl)
Plain-stays (type_stat _ _) h = (refl, refl)
Plain-stays (type_stat64 _ _) h = (refl, refl)
Plain-stays (type_other _) h = (refl, refl)

ends_at :
    {W : Type 0} (o : Originals W) (rs later : List Request) (last : Request) (t : Thread) (w : W)
    → All Plain rs
    → is_last last ≡ true
    → t.loop_break ≡ false
    → (length (serve o (rs ++ last ∷ later) t w).replies ≡ length rs + 1)
      × ((serve o (rs ++ last ∷ later) t w).left ≡ later)
unfolding serve
ends_at o [] later last t w h e k = elim (Bool-cases (round o last t w).0.loop_break) [
  | inl f ↦ rw f (refl, refl)
  | inr f ↦ rw (f, e) (refl, refl)
]
ends_at o (r ∷ rs) later last t w h e k =
    let plain = Plain-stays r h.0 in
    let f = round_flag o r t w plain.1 k in
    rw (f, plain.0)
      (let q = ends_at o rs later last (round o r t w).0 (round o r t w).1 h.1 e f in
        (omega (arith, q.0), q.1))

-- If a `close`, or a `shutdown`, comes after requests that are neither of these nor an `openat`, the
-- loop answers all of them and it, and then ends: what comes later is left unread.
pub serve_ends :
    {W : Type 0} (o : Originals W) (rs later : List Request) (fd socket flags : ℤ) (t : Thread)
    (w : W)
    → All Plain rs
    → t.loop_break ≡ false
    → ((length (serve o (rs ++ type_close fd ∷ later) t w).replies ≡ length rs + 1)
        × ((serve o (rs ++ type_close fd ∷ later) t w).left ≡ later))
      × (length (serve o (rs ++ type_shutdown socket flags ∷ later) t w).replies ≡ length rs + 1)
      × ((serve o (rs ++ type_shutdown socket flags ∷ later) t w).left ≡ later)
serve_ends o rs later fd socket flags t w h k =
    let shut = ends_at o rs later (type_shutdown socket flags) t w h refl k in
    (ends_at o rs later (type_close fd) t w h refl k, shut.0, shut.1)

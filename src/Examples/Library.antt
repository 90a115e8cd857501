-- ===== src/Examples/Library.antt =====
-- A file used through the library, the cores of its threads, and the name of a request.
use core_partitioning.Base.{
  All, ◌-◌, ◌%◌, ◌≤◌, ◌<◌, get_elem?, some, ℕ, ◌+◌, ◌≡◌, refl, [], ◌∷◌, List, Returns, arith, pos,
}
use core_partitioning.Print.{type_iton, type_setsockopt}
use core_partitioning.Print.Names.{is_none, is_long, type_iton_overflow}
use core_partitioning.Examples.Preload.{works, works-Documented, originals, process}
use core_partitioning.Examples.Register.{supply, supply-Supplied, entry_of-IsTable}
use core_partitioning.Kernel.Util.{max_cpus}
use core_partitioning.Preload.Program.{
  AppCall, open_call, openat_call, socket_call, read_call, recvfrom_call, getpeername_call,
  epoll_ctl_call, close_call, shutdown_call, original, Program, done, then_do, run_program,
  run_plain,
}
use core_partitioning.Preload.Program.Quiet.{Quiet}
use core_partitioning.Preload.Program.Unseen.{program-Unseen}
use core_partitioning.Preload.Wrapper.Same.{Documented}
use core_partitioning.Preload.Place.{
  rr, rr2, place, Starting, syscall_thread, select_thread, stat_thread,
}
use core_partitioning.Preload.Place.Cycle.{threads, place_cycles}

abbrev program : Program
program = then_do (open_call 64 (pos 0) 0) λ fd.
    then_do (read_call fd 40 64)
      λ n. then_do (recvfrom_call (pos 5) 40 64 (pos 0) 0 0) λ m. then_do (close_call fd) λ c. done

quiet : Quiet (process 0)
quiet = record {
  xs = 3 ∷ [];
  table = entry_of-IsTable;
  sems = (refl, tt);
  serving = (refl, tt);
  few = omega arith;
}

original-Documented : (c : AppCall) → Documented (original originals (λ _. works) (λ _ _. works) c)
original-Documented (open_call path flags mode) = works-Documented
original-Documented (openat_call dirfd path flags mode) = works-Documented
original-Documented (socket_call domain kind protocol) = works-Documented
original-Documented (read_call fd buf n) = works-Documented
original-Documented (recvfrom_call fd buf n flags addr addrlen) = works-Documented
original-Documented (getpeername_call fd addr addrlen) = works-Documented
original-Documented (epoll_ctl_call epfd op fd events) = works-Documented
original-Documented (close_call fd) = works-Documented
original-Documented (shutdown_call fd flags) = works-Documented

program-Unseen_example :
    Returns
      (λ r.
        ((r.0, r.1.errno, r.1.world)
          ≡ run_plain originals (λ _. works) (λ _ _. works) program 11 100)
        × Quiet r.1)
      (run_program originals (λ _. works) (λ _ _. works) (λ s. supply) 70000 program (process 0))
program-Unseen_example =
    program-Unseen originals (λ _. works) (λ _ _. works) 70000 (omega arith) (λ s. supply)
      original-Documented program (process 0) quiet
      (supply-Supplied, (λ r e. (tt, λ r e. (tt, λ r e. (tt, λ r e. tt)))))

abbrev ten_bytes : List ℕ
ten_bytes = 0 ∷ 0 ∷ 0 ∷ 0 ∷ 0 ∷ 0 ∷ 0 ∷ 0 ∷ 0 ∷ 0 ∷ []

type_iton_overflow_example : is_none (type_iton type_setsockopt ten_bytes) ≡ is_long type_setsockopt
type_iton_overflow_example = type_iton_overflow type_setsockopt ten_bytes refl

abbrev mixed : List Starting
mixed = stat_thread ∷ syscall_thread ∷ select_thread ∷ []

place_cycles_example :
    (get_elem? (place rr (threads 12) 5) 11 ≡ some (2 + (5 - 1 + 11) % 9))
    × All (λ x. (1 ≤ x) × (x ≤ 10)) (place rr mixed 0)
    × ((i : ℕ) → i < 10 → get_elem? (place rr2 (threads 10) 17) i ≡ some (11 + (17 - 10 + i) % 10))
    × (i : ℕ) × (i < 10)
    × (get_elem? (place rr2 (threads 10) 17) i ≡ some max_cpus)
place_cycles_example =
    place_cycles 12 11 5 (omega arith) (omega arith) (omega arith) mixed 0 (omega arith)
      (threads 10) 17 refl (omega arith) (omega arith)

-- ===== src/Examples/Register.antt =====
-- Descriptors made and ended in a process with one entry.
use core_partitioning.Base.{ℕ, ◌≡◌, refl, true, some, pos, negsuc, [], ◌∷◌, Returns, arith}
use core_partitioning.Table.{
  null, ok, get_by_fd, get_by_fd_all, search_table, search, load, get_next,
}
use core_partitioning.Table.Chain.{IsTable-cell, IsTable}
use core_partitioning.Table.Delete.{Found}
use core_partitioning.Examples.Table.{one_entry, one_entry-IsTable}
use core_partitioning.Examples.Preload.{works, originals, thread, process, entry_of}
use core_partitioning.Preload.Request.{Call, Originals}
use core_partitioning.Preload.Wrapper.{directly}
use core_partitioning.Preload.Wrapper.Forward.{Idle}
use core_partitioning.Preload.Accept.{accept}
use core_partitioning.Preload.Accept.Accepted.{Accepted, accept-Accepted}
use core_partitioning.Preload.Epoll.{epoll_create}
use core_partitioning.Preload.Epoll.Locks.{Created, epoll_create-Created, epoll_create_stuck}
use core_partitioning.Preload.Register.{
  EntryEnv, call_keeping, socket, open_path, openat, close, shutdown,
}
use core_partitioning.Preload.Register.Entry.{Supplied}
use core_partitioning.Preload.Register.Open.{Opened, socket-Opened, opens-Opened}
use core_partitioning.Preload.Register.Close.{Closed, ends-Closed}

abbrev pub supply : EntryEnv
supply = record {
  add_env = record { node = 4; message = 12; sem_init_ok = true; pid = 100 };
  p_thread = 8;
  create_ok = true;
  started = thread;
}

pub supply-Supplied : Supplied supply (entry_of 0)
supply-Supplied = record {
  fresh = refl;
  node = omega arith;
  sem = refl;
  message = omega arith;
  created = refl;
}

pub entry_of-IsTable : IsTable (entry_of 0) (3 ∷ [])
entry_of-IsTable = IsTable-cell one_entry (3 ∷ []) (entry_of 0).cell one_entry-IsTable refl

pub not_there : get_by_fd_all 9 (pos 7) (entry_of 0) ≡ ok null (entry_of 0)
unfolding get_by_fd_all search_table search load get_next
not_there = refl

socket-Opened_example :
    Returns
      (Opened supply 9 0 (3 ∷ []) (pos 7) (process 0) (directly works 11 (process 0)).1)
      (socket originals supply 9 (pos 2) (pos 1) (pos 0) (process 0))
socket-Opened_example =
    socket-Opened supply (process 0) (3 ∷ []) entry_of-IsTable supply-Supplied (omega arith) 9
      (omega arith) originals (pos 2) (pos 1) (pos 0) refl not_there

opens-Opened_example :
    Returns
      (Opened supply 9 1 (3 ∷ []) (pos 7) (process 0) (call_keeping works (process 0)))
      (open_path originals supply 9 64 (pos 0) 0 (process 0))
    × Returns
        (Opened supply 9 1 (3 ∷ []) (pos 7) (process 0) (call_keeping works (process 0)))
        (openat originals supply 9 (pos 3) 64 (pos 0) 0 (process 0))
opens-Opened_example =
    opens-Opened supply (process 0) (3 ∷ []) entry_of-IsTable supply-Supplied (omega arith) 9
      (omega arith) originals (pos 3) 64 (pos 0) 0 refl not_there refl not_there

found : Found (entry_of 0) 3 [] [] entry_of-IsTable (pos 5)
found = record { shown = tt; missed = tt; going = refl; hit = refl }

ends-Closed_example :
    Returns (Closed works (process 0) [] 3) (close originals (λ _. works) 9 (pos 5) (process 0))
    × Returns
        (Closed works (process 0) [] 3)
        (shutdown originals (λ _ _. works) 9 (pos 5) (pos 2) (process 0))
ends-Closed_example =
    ends-Closed (process 0) 3 [] [] entry_of-IsTable originals (λ _. works) (λ _ _. works) (pos 5)
      (pos 2) 9 found refl refl (omega arith) (omega arith)

abbrev fails_early : Call ℕ
fails_early e w = record { value = negsuc 0; errno = 24; world = w }

abbrev full_originals : Originals ℕ
full_originals = record originals { epoll_create = λ _. fails_early }

epoll_create-Created_example :
    Returns
      (Created supply 9 (3 ∷ []) (pos 7) 0 (process 0) (call_keeping works (process 0)))
      (epoll_create originals supply 9 (pos 1) 0 (process 0))
epoll_create-Created_example =
    epoll_create-Created originals supply (process 0) (3 ∷ []) entry_of-IsTable 9 (pos 1) 0
      supply-Supplied (omega arith) (omega arith) refl not_there

epoll_create_stuck_example :
    epoll_create full_originals supply 9 (pos 1) 0 (process 0)
    ≡ some (negsuc 0, 2, call_keeping fails_early (process 0))
epoll_create_stuck_example =
    epoll_create_stuck full_originals supply (process 0) (3 ∷ []) entry_of-IsTable 9 (pos 1) 0 refl
      (omega arith)

listening : Idle (process 0) (get_by_fd 9 (pos 5) 0 (entry_of 0)) 3
unfolding get_by_fd search_table search load get_next
listening = record { entry = refl; node = omega arith; sems = refl; serving = refl }

accept-Accepted_example :
    Returns
      (Accepted supply 9 (3 ∷ []) 3 works (process 0))
      (accept originals supply 9 (pos 5) 0 0 (process 0))
accept-Accepted_example =
    accept-Accepted supply (process 0) (3 ∷ []) entry_of-IsTable supply-Supplied 9 originals (pos 5)
      0 0 3 listening refl (refl, tt) (omega arith) (omega arith)

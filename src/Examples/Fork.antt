-- ===== src/Examples/Fork.antt =====
-- A small table in the child of a fork, and at the end of the process.
use core_partitioning.Base.{◌+◌, ◌≡◌, refl, true, false, pos, Returns, [], ◌∷◌, All, arith}
use core_partitioning.Table.{Table, ok}
use core_partitioning.Table.Fork.{ForkEnv, forked, destroy}
use core_partitioning.Table.Fork.Forked.{threads}
use core_partitioning.Table.Fork.Destroyed.{destroy_lem}
use core_partitioning.Preload.Start.{serving, start}
use core_partitioning.Preload.Start.Served.{forked-start}
use core_partitioning.Preload.Channel.{unset}
use core_partitioning.Preload.Fork.{ChildEnv, fork}
use core_partitioning.Preload.Fork.Child.{Inherited, fork-Inherited}
use core_partitioning.Examples.Table.{one_entry, one_entry-IsTable}
use core_partitioning.Examples.Preload.{thread, process, found_socket}
use core_partitioning.Examples.Register.{entry_of-IsTable}

abbrev child : ForkEnv
child = record { pid = 101; p_thread = λ p. p + 20; message = λ p. p + 40 }

destroy_lem_example :
    (t' : Table) × (destroy 5 one_entry ≡ ok tt t')
    × All (λ p. t'.live p ≡ false) (1 ∷ 3 ∷ 2 ∷ [])
    × (t'.live 9 ≡ one_entry.live 9)
destroy_lem_example =
    destroy_lem one_entry (3 ∷ []) 5 one_entry-IsTable refl (omega arith) 9
      (omega arith, (omega arith, (omega arith, tt)))

abbrev child_process : ChildEnv
child_process = record { table = child; buffer = λ p. unset; created = λ p. true; started = thread }

fork-Inherited_example :
    Returns
      (Inherited child_process 5 (pos 5) 0 (3 ∷ []) 3)
      (fork (pos 0) child_process 5 (process 0))
fork-Inherited_example =
    fork-Inherited child_process 5 (process 0) (3 ∷ []) entry_of-IsTable (refl, tt) (omega arith)
      (pos 5) 0 3 found_socket (omega arith)

forked-start_example :
    (t' : Table) × (forked child 5 one_entry ≡ ok (threads child one_entry.cell (3 ∷ [])) t')
    × All
        (λ x.
          start (child.p_thread x) child.pid 5 t'
          ≡ ok (serving x (one_entry.cell x).net_or_file) t')
        (3 ∷ [])
forked-start_example =
    forked-start child one_entry (3 ∷ []) 5 one_entry-IsTable (refl, tt) (refl, tt)
      (λ x y e. omega arith) (omega arith)

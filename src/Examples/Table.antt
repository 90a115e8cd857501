-- ===== src/Examples/Table.antt =====
-- A small table of descriptors: two end nodes at 1 and 2, an entry at 3.
use core_partitioning.Base.{◌≡◌, refl, true, false, [], ◌∷◌, All, ◌==◌, ◌&&◌, arith, pos, ◌==ℤ◌}
use core_partitioning.Table.{
  null, Table, ok, update, end_node, new_fd, new_node, AddEnv, add, get_by_fd_all, get_by_fd,
  get_by_tid, delete, entry_delete,
}
use core_partitioning.Table.Chain.{IsTable}
use core_partitioning.Table.Lookup.{first, reached, lookups}
use core_partitioning.Table.Add.{empty_table, init-IsTable, added, added-IsTable, Initial, add_lem}
use core_partitioning.Table.Delete.{Found, delete_lem}

abbrev no_heap : Table
no_heap = record {
  live = λ p. false;
  cell = λ p. end_node (pos 0);
  next = λ p. null;
  prev = λ p. null;
  header = null;
  tail = null;
  thr_num = 0;
}

abbrev pub system : AddEnv
system = record { node = 3; message = 9; sem_init_ok = true; pid = 100 }

abbrev none_yet : Table
none_yet = empty_table no_heap 1 2

none_yet-IsTable : IsTable none_yet []
none_yet-IsTable = (init-IsTable no_heap 1 2 (omega arith) refl (omega arith) (omega arith)).1

add_lem_example :
    (t' : Table) × (add system none_yet ≡ ok 3 t')
    × IsTable t' (3 ∷ [])
    × (t'.cell 3 ≡ new_node system)
    × Initial system (t'.cell 3)
    × All (λ x. t'.cell x ≡ none_yet.cell x) []
add_lem_example =
    add_lem system none_yet [] none_yet-IsTable refl (omega arith) refl (omega arith) (omega arith)

abbrev pub one_entry : Table
one_entry = added system none_yet

pub one_entry-IsTable : IsTable one_entry (3 ∷ [])
one_entry-IsTable =
    added-IsTable system none_yet [] none_yet-IsTable refl (omega arith) (omega arith)

lookups_example :
    (get_by_fd_all 5 new_fd one_entry
      ≡ ok
          (first one_entry.cell (λ n. n.thr_fd ==ℤ new_fd) (reached one_entry.cell (3 ∷ [])))
          one_entry)
    × (get_by_fd 5 new_fd 0 one_entry
        ≡ ok
            (first one_entry.cell
              (λ n. n.thr_fd ==ℤ new_fd && n.net_or_file == 0)
              (reached one_entry.cell (3 ∷ [])))
            one_entry)
    × (get_by_tid 5 7 one_entry
        ≡ ok
            (first one_entry.cell (λ n. n.p_thread == 7) (reached one_entry.cell (3 ∷ [])))
            one_entry)
lookups_example = lookups one_entry (3 ∷ []) one_entry-IsTable 5 (omega arith) new_fd 0 7

pub found : Found one_entry 3 [] [] one_entry-IsTable new_fd
found = record { shown = tt; missed = tt; going = refl; hit = refl }

delete_lem_example :
    (t' : Table) × (delete 5 new_fd one_entry ≡ ok 0 t')
    × IsTable t' []
    × (t'.live 3 ≡ false)
    × (t'.cell ≡ one_entry.cell)
    × (t'' : Table) × (entry_delete 5 new_fd one_entry ≡ ok 0 t'')
    × IsTable t'' []
    × (t''.live 3 ≡ true)
delete_lem_example =
    delete_lem one_entry 3 [] [] one_entry-IsTable new_fd 5 found (omega arith) (omega arith)

-- The entry made for descriptor 0, the standard input.
abbrev pub zero_entry : Table
zero_entry = record one_entry {
  cell = update one_entry.cell 3 (record (new_node system) { thr_fd = pos 0 });
}

pub zero_entry-IsTable : IsTable zero_entry (3 ∷ [])
zero_entry-IsTable = record {
  chain = one_entry-IsTable.chain;
  nodes = one_entry-IsTable.nodes;
  distinct = one_entry-IsTable.distinct;
  header_out = one_entry-IsTable.header_out;
  tail_out = one_entry-IsTable.tail_out;
  ends = one_entry-IsTable.ends;
  header_live = one_entry-IsTable.header_live;
  tail_live = one_entry-IsTable.tail_live;
  null_dead = one_entry-IsTable.null_dead;
  tail_marked = refl;
  counted = one_entry-IsTable.counted;
}

-- ===== src/Examples/Pool.antt =====
-- A table with one entry at 3, beside a pool between the nodes 6 and 7.
use core_partitioning.Base.{
  ◌+◌, ◌≡◌, refl, Bool, true, false, pos, negsuc, [], ◌∷◌, map, arith, ltb,
}
use mathlib.Core.List.{reverse}
use core_partitioning.Table.{Ptr, Table, ok, update}
use core_partitioning.Table.Chain.{IsTable}
use core_partitioning.Table.Delete.{Found}
use core_partitioning.Table.Traversal.{
  fd_line, info_line, call_by_thread, banner, between, traversal, traversal_reverse,
  print_table_info,
}
use core_partitioning.Table.Traversal.Order.{traversals}
use core_partitioning.Table.Pool.{empty_pool, to_pool, from_pool}
use core_partitioning.Table.Pool.Shape.{IsPool, Owns}
use core_partitioning.Table.Pool.Cycle.{from_pool-to_pool}
use core_partitioning.Examples.Preload.{entry_of}
use core_partitioning.Examples.Register.{entry_of-IsTable}

traversals_example :
    (traversal 5 (entry_of 0) ≡ ok (map (λ x. fd_line ((entry_of 0).cell x)) (3 ∷ [])) (entry_of 0))
    × (traversal_reverse 5 (entry_of 0)
        ≡ ok (map (λ x. fd_line ((entry_of 0).cell x)) (reverse (3 ∷ []))) (entry_of 0))
    × (print_table_info 5 call_by_thread (entry_of 0)
        ≡ ok
            (between (banner call_by_thread) (map (λ x. info_line ((entry_of 0).cell x)) (3 ∷ [])))
            (entry_of 0))
traversals_example =
    traversals (entry_of 0) (3 ∷ []) 5 call_by_thread entry_of-IsTable (omega arith)

abbrev pooled : Table
pooled = empty_pool 6 7 (entry_of 0)

pooled-IsTable : IsTable pooled (3 ∷ [])
pooled-IsTable = record {
  chain = (refl, refl, (refl, refl));
  nodes = (refl, tt);
  distinct = (tt, tt);
  header_out = (omega arith, tt);
  tail_out = (omega arith, tt);
  ends = omega arith;
  header_live = refl;
  tail_live = refl;
  null_dead = refl;
  tail_marked = refl;
  counted = refl;
}

-- The nodes below 4 are the table's.
abbrev own : Ptr → Bool
own p = ltb p 4

pooled-Owns : Owns own pooled (3 ∷ [])
pooled-Owns = record { all_table = (refl, tt); header_table = refl; tail_table = refl }

pooled-IsPool : IsPool own pooled 6 7 []
pooled-IsPool = record {
  chain = (refl, refl);
  nodes = tt;
  distinct = tt;
  header_out = tt;
  tail_out = tt;
  ends = omega arith;
  header_live = refl;
  tail_live = refl;
  all_pool = tt;
  header_pool = refl;
  tail_pool = refl;
}

found : Found pooled 3 [] [] pooled-IsTable (pos 5)
found = record { shown = tt; missed = tt; going = refl; hit = refl }

from_pool-to_pool_example :
    (t' : Table) × (to_pool 6 5 (pos 5) pooled ≡ ok tt t')
    × IsTable t' []
    × IsPool (update own 3 false) t' 6 7 (3 ∷ [])
    × (t'' : Table) × (from_pool 6 7 t' ≡ ok 3 t'')
    × IsTable (record t'' { thr_num = t''.thr_num + 1 }) (3 ∷ [])
    × IsPool (update (update own 3 false) 3 true) t'' 6 7 []
    × ((t''.cell 3).thr_fd ≡ negsuc 0)
    × (t''.thr_num ≡ 0)
from_pool-to_pool_example =
    from_pool-to_pool own pooled 6 7 3 [] [] [] pooled-IsTable pooled-Owns pooled-IsPool (pos 5) 5
      found (omega arith) (omega arith)

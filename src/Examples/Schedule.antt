-- ===== src/Examples/Schedule.antt =====
-- A read on the process of Examples.Preload, one statement at a time.
use core_partitioning.Base.{
  ℕ, zero, suc, ◌≡◌, refl, ap, Bool, true, false, pos, List, [], ◌∷◌, some, inl, inr, arith, All,
}
use core_partitioning.Preload.Request.{Request, type_read}
use core_partitioning.Preload.Channel.{unset, retval}
use core_partitioning.Preload.Wrapper.{exchange}
use core_partitioning.Preload.Schedule.{Exchange, returned, run}
use core_partitioning.Preload.Schedule.Fair.{Both, join, start, last, returned-last, fair-last}
use core_partitioning.Preload.Schedule.Refines.{call_on, put_back, returned-exchange}
use core_partitioning.Examples.Preload.{originals, thread, process}

abbrev request : Request
request = type_read (pos 5) 40 64

-- In each block the thread has the first turn, and the caller the second.
abbrev times : ℕ → List (List Bool)
times zero = []
times (suc n) = (false ∷ true ∷ []) ∷ times n

fair : (n : ℕ) → All Both (times n)
fair zero = tt
fair (suc n) = ((inr (inl refl), inl refl), fair n)

abbrev first_state : Exchange ℕ
first_state = start originals request unset unset unset thread 100

abbrev last_state : Exchange ℕ
last_state = last originals request unset unset unset thread 100

fair-last_example : run originals (join (times 21)) first_state ≡ last_state
fair-last_example =
    fair-last originals request unset unset unset thread 100 (times 21) (fair 21) (omega arith)

is_back : (run originals (join (times 21)) first_state).caller ≡ returned
is_back =
    ap (λ s. s.caller)
      (fair-last originals request unset unset unset thread 100 (times 21) (fair 21) (omega arith))

returned-last_example : run originals (join (times 21)) first_state ≡ last_state
returned-last_example =
    returned-last originals request unset unset unset thread 100 (join (times 21)) is_back

abbrev call : Exchange ℕ
call = call_on originals request (process 1) 3 unset unset

returned-exchange_example :
    (exchange originals 3 request (process 1)
      ≡ some (
        (run originals (join (times 21)) call).thread.recv_data,
        put_back originals request (process 1) 3 unset unset (run originals (join (times 21)) call),
      ))
    × ((run originals (join (times 21)) call).answer
        ≡ retval (run originals (join (times 21)) call).thread.recv_data)
returned-exchange_example =
    returned-exchange originals request (process 1) 3 unset unset refl (join (times 21)) is_back

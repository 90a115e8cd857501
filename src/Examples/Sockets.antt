-- ===== src/Examples/Sockets.antt =====
-- The modes CROSS and PER at concrete loads.
use core_partitioning.Base.{ℕ, ◌≡◌, Returns, ltb, if◌then◌else◌}
use core_partitioning.Kernel.Sockets.{
  Averages, Beyond, tick_cross, tick_per, init, number_of_sockets,
}
use core_partitioning.Kernel.Sockets.Ticks.{
  Ticked, tick_cross-Ticked, tick_per-Ticked, init-IsState,
}

abbrev busy : ℕ → ℕ
busy j = if ltb 9 j then 95 else 40

abbrev stray : Averages
stray = record { blk = 7; net = 300; sys = 0 }

abbrev beyond : Beyond
beyond = record { first = stray; second = stray; watched = stray }

tick_cross-Ticked_example : Returns (Ticked init.dynamic_turn) (tick_cross busy beyond init)
tick_cross-Ticked_example = tick_cross-Ticked busy beyond init init-IsState

tick_per-Ticked_example :
    Returns
      (λ r. Ticked init.dynamic_turn r × (r.0.socket_number ≡ number_of_sockets))
      (tick_per busy beyond init)
tick_per-Ticked_example = tick_per-Ticked busy beyond init init-IsState

-- ===== src/Kernel/Mode.antt =====
-- The four modes of simple_proc_ktimer/simple_proc.c side by side: what `kerneltimer_timeover` does to the
-- globals of each, and their first values.
pub mod Steady
use core_partitioning.Base.{ℕ, Option, some, ◌>>=◌, List, [], ◌∷◌}
use core_partitioning.Kernel.Util.{Hint}
use core_partitioning.Kernel.Single.{Single, tick as single_tick, init as single_init}
use core_partitioning.Kernel.Sockets.{Sockets, Beyond, tick_cross, tick_per, init as sockets_init}
use core_partitioning.Kernel.App.{App, tick as app_tick, init as app_init}

-- What the handler measures, and the globals that it changes.
pub record Mode : Type 1 where
  pub Loads : Type 0
  pub Globals : Type 0
  pub tick : Loads → Globals → Option (Globals × List Hint)
  pub start : Globals

-- One of the names is defined when the module is built.
pub data ModeName : Type 0 where
  single : ModeName
  cross : ModeName
  per : ModeName
  app : ModeName

abbrev pub mode_of : ModeName → Mode
mode_of single = record { Loads = ℕ → ℕ; Globals = Single; tick = single_tick; start = single_init }
mode_of cross = record {
  Loads = (ℕ → ℕ) × Beyond;
  Globals = Sockets;
  tick = λ p s. tick_cross p.0 p.1 s;
  start = sockets_init;
}
mode_of per = record {
  Loads = (ℕ → ℕ) × Beyond;
  Globals = Sockets;
  tick = λ p s. tick_per p.0 p.1 s;
  start = sockets_init;
}
mode_of app = record { Loads = ℕ → ℕ; Globals = App; tick = app_tick; start = app_init }

-- A tick for each element of the list.
unfoldable pub ticks : (m : Mode) → List m.Loads → m.Globals → Option m.Globals
ticks m [] g = some g
ticks m (p ∷ ps) g = m.tick p g >>= λ r. ticks m ps r.0

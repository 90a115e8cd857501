-- ===== src/Kernel/Mode/Steady.antt =====
-- What a tick of each mode of simple_proc_ktimer/simple_proc.c keeps.
use core_partitioning.Base.{◌≡◌, Returns, Returns-bind, Returns-mono, List, [], ◌∷◌}
use core_partitioning.Kernel.Single.Invariant.{IsPartition, init-IsPartition}
use core_partitioning.Kernel.Single.Runs.{SingleTick, tick-SingleTick}
use core_partitioning.Kernel.Sockets.{number_of_sockets}
use core_partitioning.Kernel.Sockets.Ticks.{
  IsState, init-IsState, Ticked, tick_cross-Ticked, tick_per-Ticked,
}
use core_partitioning.Kernel.App.Ticks.{IsLayout, init-IsLayout, AppTick, tick-AppTick}
use core_partitioning.Kernel.Mode.{Mode, ModeName, single, cross, per, app, mode_of, ticks}

-- An invariant of the mode: it holds at first, and from globals with it a tick does not fault and keeps
-- it.
pub record Steady (m : Mode) : Type 1 where
  pub Good : m.Globals → Type 0
  pub first : Good m.start
  pub kept : (p : m.Loads) (g : m.Globals) → Good g → Returns (λ r. Good r.0) (m.tick p g)

abbrev pub steady_of : (n : ModeName) → Steady (mode_of n)
steady_of single = record {
  Good = IsPartition;
  first = init-IsPartition;
  kept = λ p s v. Returns-mono (SingleTick s) _ _ (tick-SingleTick p s v) λ r t. t.partition;
}
steady_of cross = record {
  Good = IsState;
  first = init-IsState;
  kept = λ p s v.
      Returns-mono (Ticked s.dynamic_turn) _ _ (tick_cross-Ticked p.0 p.1 s v) λ r t. t.state;
}
steady_of per = record {
  Good = IsState;
  first = init-IsState;
  kept = λ p s v.
      Returns-mono (λ r. Ticked s.dynamic_turn r × (r.0.socket_number ≡ number_of_sockets)) _ _
        (tick_per-Ticked p.0 p.1 s v) λ r t. t.0.state;
}
steady_of app = record {
  Good = IsLayout;
  first = init-IsLayout;
  kept = λ p a v. Returns-mono AppTick _ _ (tick-AppTick p a v) λ r t. t.layout;
}

ticks_from :
    (m : Mode) (v : Steady m) (ps : List m.Loads) (g : m.Globals)
    → v.Good g
    → Returns v.Good (ticks m ps g)
unfolding ticks
ticks_from m v [] g h = h
ticks_from m v (p ∷ ps) g h =
    Returns-bind (λ r. v.Good r.0) v.Good (m.tick p g) _ (v.kept p g h)
      λ r k. ticks_from m v ps r.0 k

pub ticks-Good : (m : Mode) (v : Steady m) (ps : List m.Loads) → Returns v.Good (ticks m ps m.start)
ticks-Good m v ps = ticks_from m v ps m.start v.first

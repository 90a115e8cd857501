-- ===== src/Kernel/Timer.antt =====
-- The timer of simple_proc_ktimer/simple_proc.c: `kerneltimer_registertimer`, and the frame of
-- `kerneltimer_timeover` around a mode's tick, which registers the timer again.
pub mod Seconds
use core_partitioning.Base.{
  ℕ, ◌+◌, ◌%◌, ◌^◌, Bool, true, false, ◌&&◌, Option, none, some, ◌>>=◌, List, [], ◌∷◌, leb,
  if◌then◌else◌,
}
use core_partitioning.Kernel.Mode.{Mode}

-- The kernel's clock and its one timer of the module, and the globals of the mode.
pub record System (G : Type 0) : Type 0 where
  pub jiffies : ℕ  -- u64
  pub pending : Bool
  pub expires : ℕ  -- u64
  pub globals : G

-- `init_timer` and `add_timer`, which the kernel forbids for a timer that is pending: `none`.
unfoldable pub add_timer : {G : Type 0} → System G → Option (System G)
add_timer s = if s.pending then none else some (record s { pending = true })

unfoldable pub registertimer : {G : Type 0} → (timeover : ℕ) → System G → Option (System G)
registertimer timeover s = add_timer (record s { expires = (s.jiffies + timeover) % 2 ^ 64 })

module _ (m : Mode) where
  -- `kerneltimer_timeover`; `arg` says whether the argument is not NULL, and `hz` is TIME_STEP.
  unfoldable pub timeover :
      (hz : ℕ) → (arg : Bool) → m.Loads → System m.Globals → Option (System m.Globals)
  timeover hz arg p s =
      if arg
      then (m.tick p s.globals >>= λ r. registertimer hz (record s { globals = r.0 }))
      else some s

  -- A jiffy passes: the kernel takes a timer that is due off its list and calls its function. `p` are
  -- the loads that a call at this jiffy measures.
  unfoldable pub jiffy : (hz : ℕ) → m.Loads → System m.Globals → Option (System m.Globals)
  jiffy hz p s =
      let now = record s { jiffies = s.jiffies + 1 } in
      if now.pending && leb now.expires now.jiffies
      then timeover hz true p (record now { pending = false })
      else some now

  unfoldable pub elapse : (hz : ℕ) → List m.Loads → System m.Globals → Option (System m.Globals)
  elapse hz [] s = some s
  elapse hz (p ∷ ps) s = jiffy hz p s >>= elapse hz ps

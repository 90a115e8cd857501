-- ===== src/Kernel/Timer/Seconds.antt =====
-- The timer of simple_proc_ktimer/simple_proc.c over whole seconds.
use core_partitioning.Base.{
  ℕ, suc, ◌+◌, ◌*◌, ◌%◌, ◌^◌, ◌<◌, ◌≡◌, refl, sym, ap, Returns, ◌∙◌, true, false, Option, none,
  some, ◌>>=◌, List, [], ◌∷◌, ◌++◌, map, arith, length, All, leb, Option-cases, inl, inr,
}
use mathlib.Core.Path.{subst}
use core_partitioning.Kernel.Mode.{Mode, ModeName, mode_of, ticks}
use core_partitioning.Kernel.Mode.Steady.{Steady, steady_of, ticks-Good}
use core_partitioning.Kernel.Timer.{System, add_timer, registertimer, timeover, jiffy, elapse}

-- The timer is pending and due in `left` jiffies.
abbrev pub armed : {G : Type 0} → (left now : ℕ) → G → System G
armed left now a = record { jiffies = now; pending = true; expires = now + left; globals = a }

-- A second: the loads at each jiffy before the last, and those at the last, when the timer is due.
pub record Second (L : Type 0) : Type 0 where
  pub before : List L
  pub due : L

abbrev pub jiffies_of : {L : Type 0} → List (Second L) → List L
jiffies_of [] = []
jiffies_of (s ∷ ss) = s.before ++ s.due ∷ jiffies_of ss

second_later : (hz n : ℕ) → hz * suc n ≡ hz + hz * n
second_later hz n = grind arith

module _ (m : Mode) where
  jiffy_early :
      (hz : ℕ) (p : m.Loads) (left now : ℕ) (a : m.Globals)
      → jiffy m hz p (armed (suc (suc left)) now a) ≡ some (armed (suc left) (now + 1) a)
  unfolding jiffy
  jiffy_early hz p left now a = ground arith

  jiffy_due :
      (hz : ℕ) (p : m.Loads) (now : ℕ) (a : m.Globals)
      → now + 1 + hz < 2 ^ 64
      → jiffy m hz p (armed 1 now a) ≡ (m.tick p a >>= λ r. some (armed hz (now + 1) r.0))
  unfolding jiffy timeover registertimer add_timer
  jiffy_due hz p now a h =
      let due : leb (now + 1) (now + 1) ≡ true = ground arith in
      let small : (now + 1 + hz) % 2 ^ 64 ≡ now + 1 + hz = omega arith in rw due (rw small refl)

  elapse_early :
      (hz : ℕ) (ps rest : List m.Loads) (now : ℕ) (a : m.Globals)
      → elapse m hz (ps ++ rest) (armed (suc (length ps)) now a)
        ≡ elapse m hz rest (armed 1 (now + length ps) a)
  unfolding elapse
  elapse_early hz [] rest now a = ap (λ n. elapse m hz rest (armed 1 n a)) (omega arith)
  elapse_early hz (p ∷ ps) rest now a =
      rw (jiffy_early hz p (length ps) now a) (
        elapse_early hz ps rest (now + 1) a
        ∙ ap (λ n. elapse m hz rest (armed 1 n a)) (omega arith))

  elapse-ticks :
      (hz now : ℕ) (ss : List (Second m.Loads)) (a : m.Globals)
      → All (λ s. suc (length s.before) ≡ hz) ss
      → now + hz * (length ss + 1) < 2 ^ 64
      → elapse m hz (jiffies_of ss) (armed hz now a)
        ≡ (ticks m (map (λ s. s.due) ss) a >>= λ b. some (armed hz (now + hz * length ss) b))
  unfolding elapse ticks
  elapse-ticks hz now [] a each small = ap (λ n. some (armed hz n a)) (omega arith)
  elapse-ticks hz now (s ∷ ss) a each small =
      subst
        (λ left. elapse m hz (jiffies_of (s ∷ ss)) (armed left now a) ≡ (
          ticks m (map (λ s. s.due) (s ∷ ss)) a >>= λ b.
          some (armed hz (now + hz * length (s ∷ ss)) b)))
        each.0
        (elapse_early hz s.before (s.due ∷ jiffies_of ss) now a
          ∙ rw (jiffy_due hz s.due (now + length s.before) a (omega (arith, each.0)))
              (elim (Option-cases (m.tick s.due a)) [
                | inl e ↦ rw e refl
                | inr (r, e) ↦ rw e (
                    let ih =
                      elapse-ticks hz (now + length s.before + 1) ss r.0 each.1
                        (omega (arith, each.0, second_later hz (length ss))) in
                    ih
                    ∙ ap (λ n. ticks m (map (λ s. s.due) ss) r.0 >>= λ b. some (armed hz n b))
                        (omega (arith, each.0, second_later hz (length ss))))
              ]))

-- The module as `init_simpleproc` has set it up, before it registers the timer.
abbrev pub loaded : {G : Type 0} → (now : ℕ) → G → System G
loaded now a = record { jiffies = now; pending = false; expires = 0; globals = a }

-- The state `s` is what the ticks with the loads `ps` make, with the timer armed at `now`.
pub record AfterTicks (m : Mode) (v : Steady m) (hz now : ℕ) (ps : List m.Loads)
    (s : System m.Globals) : Type 0 where
  pub good : v.Good s.globals
  pub ticked : ticks m ps m.start ≡ some s.globals
  pub again : s ≡ armed hz now s.globals

ticked-AfterTicks :
    (m : Mode) (v : Steady m) (hz now : ℕ) (ps : List m.Loads) (r : Option m.Globals)
    → r ≡ ticks m ps m.start
    → Returns v.Good r
    → Returns (AfterTicks m v hz now ps) (r >>= λ b. some (armed hz now b))
ticked-AfterTicks m v hz now ps none e h = h
ticked-AfterTicks m v hz now ps (some b) e h = record { good = h; ticked = sym e; again = refl }

-- In each of the four modes, if each second has TIME_STEP jiffies and the clock does not wrap, then from
-- the timer that `init_simpleproc` registers the handler runs once a second, with the loads measured at
-- the second's last jiffy: no call faults or registers a timer that is pending, and what is left is the
-- run of ticks on those loads, globals that are well formed for the mode, and the timer armed for the
-- next second.
pub elapse-AfterTicks :
    (n : ModeName) (hz now : ℕ) (ss : List (Second (mode_of n).Loads))
    → All (λ s. suc (length s.before) ≡ hz) ss
    → now + hz * (length ss + 1) < 2 ^ 64
    → Returns
        (AfterTicks (mode_of n) (steady_of n) hz (now + hz * length ss) (map (λ s. s.due) ss))
        (registertimer hz (loaded now (mode_of n).start) >>= elapse (mode_of n) hz (jiffies_of ss))
unfolding registertimer add_timer
elapse-AfterTicks n hz now ss each small =
    let m = mode_of n in
    let start : (now + hz) % 2 ^ 64 ≡ now + hz = omega (arith, second_later hz (length ss)) in
    rw (start, elapse-ticks m hz now ss m.start each small)
      (ticked-AfterTicks m (steady_of n) hz (now + hz * length ss) (map (λ s. s.due) ss) _ refl
        (ticks-Good m (steady_of n) (map (λ s. s.due) ss)))

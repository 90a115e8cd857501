-- ===== src/Affinity/App/Least.antt =====
-- The core that `set_cpu_app` of affinity.c chooses, and the mask that it sets.
use core_partitioning.Base.{
  some, pos, lt→ltb, ℕ, map, zero, suc, ◌+◌, ◌-◌, ◌^◌, ◌≤◌, ◌<◌, ◌≡◌, ◌⊎◌, inl, inr, refl, ap, ◌∙◌,
  Bool-cases, List, [], ◌∷◌, arith, length, All, get_or, ltb, ℕ_discrete, dec_lt,
}
use mathlib.Core.Path.{subst}
use core_partitioning.Kernel.Util.{max_cpus}
use core_partitioning.Kernel.App.{Socket, App}
use core_partitioning.Kernel.App.Ticks.{IsLayout}
use core_partitioning.Affinity.{cpu_set}
use core_partitioning.Affinity.Cores.{length-cpu_set}
use core_partitioning.Affinity.Lines.{lines, app_lines, show_stat, show_stat_app, read_lines}
use core_partitioning.Affinity.Lines.RoundTrip.{read_lines-lines}
use core_partitioning.Affinity.App.{
  proc_max_len, own_core, migration, raised, lower, read_total, least_from, least_on, first_choice,
  choice, counter_after, set_cpu_app,
}

-- `m` is `start` or one of the cores from `first` to before `last`, and none of these has less load.
pub record Least (loads : List ℕ) (start first last m : ℕ) : Type 0 where
  pub one_of : (m ≡ start) ⊎ ((first ≤ m) × (m < last))
  pub below_start : get_or loads m 0 ≤ get_or loads start 0
  pub below_each : (c : ℕ) → first ≤ c → c < last → get_or loads m 0 ≤ get_or loads c 0

module _ (loads : List ℕ) where
  least_from-Least :
      (rounds first start : ℕ)
      → Least loads start first (first + rounds) (least_from loads rounds first start)
  unfolding least_from
  least_from-Least zero first start = record {
    one_of = inl refl;
    below_start = omega arith;
    below_each = λ c h k. omega arith;
  }
  least_from-Least (suc rounds) first start =
      elim (Bool-cases (ltb (get_or loads first 0) (get_or loads start 0))) [
        | inl e ↦
            let r = least_from-Least rounds (first + 1) first in
            let less : get_or loads first 0 < get_or loads start 0 = ground arith in
            rw e (record {
              one_of = inr (from_one r.one_of);
              below_start = omega (arith, less, r.below_start);
              below_each = λ c h k. elim (ℕ_discrete c first) [
                | yes f ↦ rw f r.below_start
                | no ne ↦ r.below_each c (omega arith) (omega arith)
              ];
            })
        | inr e ↦
            let r = least_from-Least rounds (first + 1) start in
            let more : get_or loads start 0 ≤ get_or loads first 0 = ground arith in
            rw e (record {
              one_of = from_two r.one_of;
              below_start = r.below_start;
              below_each = λ c h k. elim (ℕ_discrete c first) [
                | yes f ↦ rw f (omega (arith, more, r.below_start))
                | no ne ↦ r.below_each c (omega arith) (omega arith)
              ];
            })
      ]
    where
      from_one :
          {m : ℕ}
          → (m ≡ first) ⊎ ((first + 1 ≤ m) × (m < first + 1 + rounds))
          → (first ≤ m) × (m < first + suc rounds)
      from_one h = omega (arith, h)

      from_two :
          {m : ℕ}
          → (m ≡ start) ⊎ ((first + 1 ≤ m) × (m < first + 1 + rounds))
          → (m ≡ start) ⊎ ((first ≤ m) × (m < first + suc rounds))
      from_two (inl e) = inl e
      from_two (inr h) = inr (omega (arith, h))

  -- The loop over a socket.
  least_on-Least :
      (s : Socket) (start : ℕ)
      → Least loads start (s.app_start + 1) s.blk_start (least_on loads s start)
  least_on-Least s start =
      let r = least_from-Least (s.blk_start - (s.app_start + 1)) (s.app_start + 1) start in
      elim (dec_lt s.app_start s.blk_start) [
        | yes h ↦ record {
          one_of = elim r.one_of [ inl e ↦ inl e | inr k ↦ inr (k.0, omega arith) ];
          below_start = r.below_start;
          below_each = λ c f l. r.below_each c f (omega arith);
        }
        | no h ↦ record {
          one_of = elim r.one_of [ inl e ↦ inl e | inr k ↦ absurd (omega (arith, k)) ];
          below_start = r.below_start;
          below_each = λ c f l. absurd (omega arith);
        }
      ]

length-map : (f : ℕ → ℕ) (ns : List ℕ) → length (map f ns) ≡ length ns
length-map f [] = refl
length-map f (n ∷ ns) = ap suc (length-map f ns)

map-All : (f : ℕ → ℕ) (ns : List ℕ) → ((n : ℕ) → f n < 10 ^ 7) → All (λ n. n < 10 ^ 7) (map f ns)
map-All f [] h = tt
map-All f (n ∷ ns) h = (h n, map-All f ns h)

pub small : (s : App) → IsLayout s → All (λ n. n < 10 ^ 7) (app_lines s.low (app_lines s.high []))
small s v = ground (arith, v.low, v.low_range, v.high, v.high_range)

-- The loads of all cores, 120 higher than the kernel module prints them, and 90 lower for `core`.
abbrev pub loads_for : (p : ℕ → ℕ) → (core : ℕ) → List ℕ
loads_for p core = lower (map raised (map p (cpu_set max_cpus 0))) core own_core

-- From the proc files that the kernel module prints in APP mode for a well-formed layout, all 20 cores on
-- line and loads below 10^7, and with one of these cores running: `set_cpu_app` finds a core of least
-- load among the application's of the high socket, where the running core counts 90 less, and then
-- one of least load among that core, which counts 30 less from then on, and those of the low socket
-- after `app_start`. But the mask that it sets holds core 2 alone, whatever core it has found.
pub set_cpu_app-Least :
    (p : ℕ → ℕ)
    → ((c : ℕ) → p c < 10 ^ 7)
    → (s : App) → IsLayout s
    → (core : ℕ) → core < max_cpus
    → (r : ℕ × List ℕ) × (set_cpu_app
          (pos core)
          (show_stat p (cpu_set max_cpus 0))
          (show_stat_app s)
        ≡ some r)
      × (first : ℕ) × Least
          (loads_for p core)
          s.high.app_start
          (s.high.app_start + 1)
          s.high.blk_start
          first
      × Least
          (lower (loads_for p core) first migration)
          first
          (s.low.app_start + 1)
          s.low.blk_start
          r.0
      × (r.1 ≡ 2 ∷ [])
unfolding set_cpu_app show_stat show_stat_app read_total choice first_choice counter_after
set_cpu_app-Least p few s v core here =
    let ns : List ℕ = map p (cpu_set max_cpus 0) in
    let total : read_lines (proc_max_len - 2) max_cpus (lines ns) ≡ ns =
      subst (λ k. read_lines (proc_max_len - 2) k (lines ns) ≡ ns)
        (length-map p (cpu_set max_cpus 0) ∙ length-cpu_set max_cpus 0)
        (read_lines-lines (proc_max_len - 2) ns (omega arith)
          (map-All p (cpu_set max_cpus 0) few)) in
    let dynamic =
      read_lines-lines 8 (app_lines s.low (app_lines s.high [])) (omega arith) (small s v) in
    let first = first_choice (loads_for p core) s in
    (
      (choice (loads_for p core) s, 2 ∷ []),
      rw (total, dynamic, lt→ltb core max_cpus here) refl,
      first,
      least_on-Least (loads_for p core) s.high s.high.app_start,
      least_on-Least (lower (loads_for p core) first migration) s.low first,
      refl,
    )

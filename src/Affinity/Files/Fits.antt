-- ===== src/Affinity/Files/Fits.antt =====
-- How much the proc files of simple_proc_ktimer/simple_proc.c show, and how it is read back.
use core_partitioning.Base.{
  ℕ, ◌-◌, ◌*◌, ◌^◌, ◌≤◌, ◌<◌, ◌≡◌, refl, List, [], ◌∷◌, map, arith, length, length-append, All,
}
use core_partitioning.Kernel.App.{App}
use core_partitioning.Kernel.App.Ticks.{IsLayout}
use core_partitioning.Kernel.Proc.{Entry, user, system, intr, total, dynamic}
use core_partitioning.Affinity.{newline}
use core_partitioning.Affinity.Text.{digits-Text}
use core_partitioning.Affinity.Lines.{lines, app_lines, read_lines, show_stat, show_stat_app}
use core_partitioning.Affinity.Lines.RoundTrip.{read_lines-lines}
use core_partitioning.Affinity.App.{proc_max_len}
use core_partitioning.Affinity.App.Least.{small}
use core_partitioning.Affinity.Files.{
  Globals, Opened, open_size, stat_open_user, stat_open_system, stat_open_irq, stat_open_total,
  stat_open_dynamic, open_entry,
}

-- The numbers that a file is to show.
abbrev pub numbers : Entry → Globals → List ℕ
numbers user g = map g.p_user g.online
numbers system g = map g.p_system g.online
numbers intr g = map g.p_irq g.online
numbers total g = map g.p_total g.online
numbers dynamic g = app_lines g.app.low (app_lines g.app.high [])

-- A number below 10^7 takes a line of eight characters at most.
length-lines : (ns : List ℕ) → All (λ n. n < 10 ^ 7) ns → length (lines ns) ≤ 8 * length ns
length-lines [] h = omega arith
length-lines (n ∷ ns) h =
    let t = digits-Text 10 n in
    rw (t.before (newline ∷ lines ns)) (
      omega (
        arith,
        length-append t.chars (newline ∷ lines ns),
        t.short 7 h.0 (omega arith),
        length-lines ns h.1,
      ))

length-map : (p : ℕ → ℕ) (xs : List ℕ) → length (map p xs) ≡ length xs
length-map p [] = refl
length-map p (x ∷ xs) = omega (arith, length-map p xs)

-- The text has room to spare in the buffer, and is read back line by line.
pub record Readable (ns : List ℕ) (o : Opened) : Type 0 where
  pub fits : length o.shown < o.size
  pub read : read_lines (proc_max_len - 2) (length ns) o.shown ≡ ns

-- All values are printed in seven digits at most.
pub record IsShown (g : Globals) : Type 0 where
  pub user_small : All (λ n. n < 10 ^ 7) (map g.p_user g.online)
  pub system_small : All (λ n. n < 10 ^ 7) (map g.p_system g.online)
  pub irq_small : All (λ n. n < 10 ^ 7) (map g.p_irq g.online)
  pub total_small : All (λ n. n < 10 ^ 7) (map g.p_total g.online)
  pub layout : IsLayout g.app

stat-Readable :
    (p : ℕ → ℕ) (g : Globals)
    → All (λ n. n < 10 ^ 7) (map p g.online)
    → Readable (map p g.online) (record { shown = show_stat p g.online; size = open_size g })
unfolding show_stat
stat-Readable p g h = record {
  fits = omega (arith, length-lines (map p g.online) h, length-map p g.online);
  read = read_lines-lines (proc_max_len - 2) (map p g.online) (omega arith) h;
}

dynamic-Readable :
    (a : App) (g : Globals)
    → IsLayout a
    → Readable
        (app_lines a.low (app_lines a.high []))
        (record { shown = show_stat_app a; size = open_size g })
unfolding show_stat_app
dynamic-Readable a g v = record {
  fits = omega (arith, length-lines (app_lines a.low (app_lines a.high [])) (small a v));
  read =
      read_lines-lines (proc_max_len - 2) (app_lines a.low (app_lines a.high [])) (omega arith)
        (small a v);
}

-- If the percentages of the cores on line are below 10^7 and the layout is well formed, each of the five
-- files shows a text that is shorter than the buffer that it is opened with, and reading as many lines
-- as there are numbers gives back the numbers of the file's own globals.
pub open_entry-Readable :
    (n : Entry) (g : Globals) → IsShown g → Readable (numbers n g) (open_entry n g)
unfolding open_entry stat_open_user stat_open_system stat_open_irq stat_open_total stat_open_dynamic
open_entry-Readable user g v = stat-Readable g.p_user g v.user_small
open_entry-Readable system g v = stat-Readable g.p_system g v.system_small
open_entry-Readable intr g v = stat-Readable g.p_irq g v.irq_small
open_entry-Readable total g v = stat-Readable g.p_total g v.total_small
open_entry-Readable dynamic g v = dynamic-Readable g.app g v.layout

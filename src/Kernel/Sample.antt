-- ===== src/Kernel/Sample.antt =====
-- The load of one core, as `kerneltimer_timeover` of simple_proc_ktimer/simple_proc.c derives it
-- from two readings of the kernel's counters. All values are `u64` and wrap; what is stored is
-- the low 32 bits, the bit pattern of an `int`.
pub mod Bounds
pub mod Reading
pub mod Counters
use core_partitioning.Base.{
  ℕ, ◌+◌, ◌-◌, ◌*◌, ◌/◌, ◌%◌, ◌^◌, Option, none, some, ltb, ◌==◌, if◌then◌else◌, ◌>>=◌,
}

abbrev pub u64_mod : ℕ
u64_mod = 2 ^ 64

abbrev pub u32_mod : ℕ
u32_mod = 2 ^ 32

abbrev pub add_u64 : ℕ → ℕ → ℕ
add_u64 a b = (a + b) % u64_mod

abbrev pub sub_u64 : ℕ → ℕ → ℕ
sub_u64 a b = (a + u64_mod - b) % u64_mod

abbrev pub mul_u64 : ℕ → ℕ → ℕ
mul_u64 a b = (a * b) % u64_mod

-- The fields of `struct proc_stat` that the handler writes; it leaves the other three alone.
pub record ProcStat : Type 0 where
  pub user : ℕ
  pub nice : ℕ
  pub system : ℕ
  pub idle : ℕ
  pub iowait : ℕ
  pub irq : ℕ
  pub softirq : ℕ

-- `p_user[i]` and its four companions.
pub record Usage : Type 0 where
  pub user : ℕ
  pub system : ℕ
  pub irq : ℕ
  pub total : ℕ
  pub dynamic : ℕ

-- `temp = 100 - ((idle * 100) / (busy + idle)); if (temp < 1) 0 else (int) temp`. The sum can wrap
-- to zero, which is a divide error.
unfoldable pub percent : (busy idle : ℕ) → Option ℕ
percent busy idle =
    let whole = add_u64 busy idle in
    if whole == 0
    then none
    else let temp = sub_u64 100 (mul_u64 idle 100 / whole) in
      some (if ltb temp 1 then 0 else temp % u32_mod)

-- `if (idle == 0) idle = 1;`
abbrev pub at_least_one : ℕ → ℕ
at_least_one idle = if idle == 0 then 1 else idle

-- The body of `for_each_online_cpu(i)`: the entry of `before[]` that the next tick reads, and the
-- five percentages.
unfoldable pub sample : (before after : ProcStat) → Option (ProcStat × Usage)
sample before after = do
  let user = sub_u64 after.user before.user
  let system = sub_u64 after.system before.system
  let idle = at_least_one (sub_u64 after.idle before.idle)
  let irq = sub_u64 (add_u64 (sub_u64 after.irq before.irq) after.softirq) before.softirq
  let total = add_u64 (add_u64 user system) irq
  let dynamic = add_u64 (add_u64 system irq) user
  p_user ← percent user idle
  p_system ← percent system idle
  p_irq ← percent irq idle
  p_total ← percent total idle
  p_dynamic ← percent dynamic idle
  some (
    after,
    record { user = p_user; system = p_system; irq = p_irq; total = p_total; dynamic = p_dynamic },
  )

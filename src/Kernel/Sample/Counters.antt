-- ===== src/Kernel/Sample/Counters.antt =====
-- How `kerneltimer_timeover` of simple_proc_ktimer/simple_proc.c reads the kernel's counters of a core:
-- `get_idle_time` and `get_iowait_time`, without and with `arch_idle_time`.
pub mod Booked
use core_partitioning.Base.{ℕ, ◌+◌, ◌-◌, ◌^◌, Bool, not, ◌&&◌, ◌==◌, ◌!=◌, if◌then◌else◌}
use core_partitioning.Kernel.Sample.{ProcStat, add_u64}

-- `kcpustat_cpu(cpu).cpustat[]` and what the kernel's functions return for the core.
pub record Cpu : Type 0 where
  pub cpustat : ProcStat
  pub online : Bool  -- cpu_online
  pub idle_time_us : ℕ  -- get_cpu_idle_time_us
  pub iowait_time_us : ℕ  -- get_cpu_iowait_time_us
  pub nr_iowait : ℕ  -- nr_iowait_cpu
  pub arch_idle_time : ℕ

abbrev pub unknown : ℕ
unknown = 2 ^ 64 - 1  -- -1ULL

-- Without `arch_idle_time`: both branches read the same counter.
unfoldable pub get_idle_time : Cpu → ℕ
get_idle_time c =
    let idle_time = if c.online then c.idle_time_us else unknown in
    if idle_time == unknown then c.cpustat.idle else c.cpustat.idle

unfoldable pub get_iowait_time : Cpu → ℕ
get_iowait_time c =
    let iowait_time = if c.online then c.iowait_time_us else unknown in
    if iowait_time == unknown then c.cpustat.iowait else c.cpustat.iowait

unfoldable pub get_idle_time_arch : Cpu → ℕ
get_idle_time_arch c =
    if c.online && c.nr_iowait == 0 then add_u64 c.cpustat.idle c.arch_idle_time else c.cpustat.idle

unfoldable pub get_iowait_time_arch : Cpu → ℕ
get_iowait_time_arch c =
    if c.online && c.nr_iowait != 0
    then add_u64 c.cpustat.iowait c.arch_idle_time
    else c.cpustat.iowait

-- The entry of `after[]`.
unfoldable pub read_after : Cpu → ProcStat
read_after c = record {
  user = c.cpustat.user;
  nice = c.cpustat.nice;
  system = c.cpustat.system;
  idle = get_idle_time c;
  iowait = get_iowait_time c;
  irq = c.cpustat.irq;
  softirq = c.cpustat.softirq;
}

-- ===== src/Kernel/Sample/Counters/Booked.antt =====
-- Where the idle time of a core is booked in simple_proc_ktimer/simple_proc.c.
use core_partitioning.Base.{◌+◌, ◌^◌, ◌<◌, ◌≡◌, arith, if◌then◌else◌}
use core_partitioning.Kernel.Sample.Counters.{
  Cpu, get_idle_time, get_iowait_time, get_idle_time_arch, get_iowait_time_arch, read_after,
}

-- Without `arch_idle_time` the reading is what the counters hold, on line or not.
pub read_after_lem : (c : Cpu) → read_after c ≡ c.cpustat
unfolding read_after get_idle_time get_iowait_time
read_after_lem c = ground arith

-- With `arch_idle_time` the time is booked once: as idle time or as time of waiting, if the core is on
-- line, and not at all if it is off line.
pub arch_booked_once :
    (c : Cpu)
    → c.cpustat.idle + c.arch_idle_time < 2 ^ 64
    → c.cpustat.iowait + c.arch_idle_time < 2 ^ 64
    → get_idle_time_arch c + get_iowait_time_arch c
      ≡ c.cpustat.idle + c.cpustat.iowait + (if c.online then c.arch_idle_time else 0)
unfolding get_idle_time_arch get_iowait_time_arch
arch_booked_once c h k = ground arith

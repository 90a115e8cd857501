-- ===== src/Examples/Sample.antt =====
-- Two readings of one core's counters, a second apart.
use core_partitioning.Base.{Returns, arith}
use core_partitioning.Kernel.Sample.{ProcStat, sample}
use core_partitioning.Kernel.Sample.Reading.{Advances, Sampled, Bounded, sample_lem}

abbrev earlier : ProcStat
earlier = record {
  user = 500;
  nice = 0;
  system = 300;
  idle = 9000;
  iowait = 0;
  irq = 20;
  softirq = 40;
}

abbrev later : ProcStat
later = record {
  user = 540;
  nice = 0;
  system = 310;
  idle = 9040;
  iowait = 0;
  irq = 22;
  softirq = 48;
}

advances : Advances earlier later
advances = record {
  user = omega arith;
  system = omega arith;
  idle = omega arith;
  irq = omega arith;
  softirq = omega arith;
  fits = omega arith;
  small = omega arith;
}

sample_lem_example : Returns (λ r. Sampled earlier later r × Bounded r.1) (sample earlier later)
sample_lem_example = sample_lem earlier later advances

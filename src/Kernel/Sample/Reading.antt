-- ===== src/Kernel/Sample/Reading.antt =====
-- One reading of the counters by `kerneltimer_timeover` of simple_proc_ktimer/simple_proc.c.
use core_partitioning.Base.{ℕ, ◌+◌, ◌-◌, ◌*◌, ◌≤◌, ◌<◌, ◌≡◌, refl, arith, Returns, Returns-mono}
use core_partitioning.Kernel.Sample.{
  u64_mod, add_u64, sub_u64, ProcStat, Usage, sample, at_least_one,
}
use core_partitioning.Kernel.Sample.Bounds.{share, percent-share, share-le-hundred, share_mono}

-- No counter ran backwards or wrapped between the readings, and all of them together moved by
-- less than a hundredth of 2 ^ 64.
pub record Advances (before after : ProcStat) : Type 0 where
  pub user : before.user ≤ after.user
  pub system : before.system ≤ after.system
  pub idle : before.idle ≤ after.idle
  pub irq : before.irq ≤ after.irq
  pub softirq : before.softirq ≤ after.softirq
  pub fits :
      (after.user < u64_mod)
      × (after.system < u64_mod)
      × (after.idle < u64_mod)
      × (after.irq < u64_mod)
      × (after.softirq < u64_mod)
  pub small :
      100 * (after.user + after.system + after.idle + after.irq + after.softirq + 1)
      < 100 * (before.user + before.system + before.idle + before.irq + before.softirq) + u64_mod

pub record Bounded (u : Usage) : Type 0 where
  pub user_part : u.user ≤ u.total
  pub system_part : u.system ≤ u.total
  pub irq_part : u.irq ≤ u.total
  pub total_percent : u.total ≤ 100
  pub dynamic_percent : u.dynamic ≤ 100

module _ (before after : ProcStat) where
  abbrev pub user_time : ℕ
  user_time = after.user - before.user

  abbrev pub system_time : ℕ
  system_time = after.system - before.system

  abbrev pub irq_time : ℕ
  irq_time = (after.irq - before.irq) + (after.softirq - before.softirq)

  abbrev pub idle_time : ℕ
  idle_time = at_least_one (after.idle - before.idle)

  pub record Sampled (r : ProcStat × Usage) : Type 0 where
    pub kept : r.0 ≡ after
    pub user : r.1.user ≡ share user_time idle_time
    pub system : r.1.system ≡ share system_time idle_time
    pub irq : r.1.irq ≡ share irq_time idle_time
    pub total : r.1.total ≡ share (user_time + system_time + irq_time) idle_time
    pub dynamic : r.1.dynamic ≡ r.1.total

  idle_bounds : (0 < idle_time) × (idle_time ≤ after.idle - before.idle + 1)
  idle_bounds = ground arith

  differences :
      Advances before after
      → (sub_u64 after.user before.user ≡ user_time)
        × (sub_u64 after.system before.system ≡ system_time)
        × (sub_u64 after.idle before.idle ≡ after.idle - before.idle)
        × (sub_u64 (add_u64 (sub_u64 after.irq before.irq) after.softirq) before.softirq ≡ irq_time)
  differences a = omega arith

  sums :
      Advances before after
      → (add_u64 (add_u64 user_time system_time) irq_time ≡ user_time + system_time + irq_time)
        × (add_u64 (add_u64 system_time irq_time) user_time ≡ user_time + system_time + irq_time)
  sums a = omega arith

  pub sample-Sampled : Advances before after → Returns Sampled (sample before after)
  unfolding sample
  sample-Sampled a =
      let (u, s, i, r) = differences a in
      let (t, d) = sums a in
      let (pos, near) = idle_bounds in
      rw
        (
          u,
          s,
          i,
          r,
          t,
          d,
          percent-share user_time idle_time pos (omega (arith, a, near)),
          percent-share system_time idle_time pos (omega (arith, a, near)),
          percent-share irq_time idle_time pos (omega (arith, a, near)),
          percent-share (user_time + system_time + irq_time) idle_time pos (omega (arith, a, near)),
        )
        (record {
          kept = refl;
          user = refl;
          system = refl;
          irq = refl;
          total = refl;
          dynamic = refl;
        })

  -- If the counters advance, the reading is stored as the one to compare with next, each percentage is
  -- the share of its time rounded up, and the dynamic percentage is the total one; none of the three
  -- parts exceeds the total, and the total is at most 100.
  pub sample_lem :
      Advances before after → Returns (λ r. Sampled r × Bounded r.1) (sample before after)
  sample_lem a =
      let (pos, near) = idle_bounds in
      Returns-mono Sampled _ _ (sample-Sampled a) λ r d. (
        d,
        omega (
          arith,
          d,
          share-le-hundred (user_time + system_time + irq_time) idle_time pos,
          share_mono user_time (user_time + system_time + irq_time) idle_time pos (omega arith),
          share_mono system_time (user_time + system_time + irq_time) idle_time pos (omega arith),
          share_mono irq_time (user_time + system_time + irq_time) idle_time pos (omega arith),
        ),
      )

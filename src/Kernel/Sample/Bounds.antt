-- ===== src/Kernel/Sample/Bounds.antt =====
-- The percentages of simple_proc_ktimer/simple_proc.c: what they are, and when they can be had.
use core_partitioning.Base.{
  ℕ, ◌+◌, ◌-◌, ◌*◌, ◌/◌, ◌%◌, ◌≤◌, ◌<◌, ◌≡◌, some, arith, ap, ◌∙◌, sym, ltb, if◌then◌else◌, ne→==,
}
use core_partitioning.Kernel.Sample.{u64_mod, u32_mod, sub_u64, percent}
use native.Mathlib.Nat.{
  mod-eq_of_lt, div-eq_of_lt-le, div-add-mod', div-le_of_le-mul, mod-lt, add-mul, mul-le-mul_left,
  le-div_iff_mul-le, div-mul-le_self, le_trans,
}

-- The share of `busy` in the whole, in percent, rounded up.
abbrev pub share : (busy idle : ℕ) → ℕ
share busy idle = (100 * busy + (busy + idle - 1)) / (busy + idle)

module _ (busy idle : ℕ) (h : 0 < idle) where
  hundred_idle : idle * 100 / (busy + idle) ≤ 100
  hundred_idle = div-le_of_le-mul (busy + idle) (omega arith)

  -- The source's form: a hundred less the idle share rounded down.
  share-complement : share busy idle ≡ 100 - idle * 100 / (busy + idle)
  share-complement =
      div-eq_of_lt-le (busy + idle) (omega (arith, whole, part, rest))
        (omega (arith, whole, part, rest))
    where
      whole :
          (100 - idle * 100 / (busy + idle)) * (busy + idle)
            + idle * 100 / (busy + idle) * (busy + idle)
          ≡ 100 * (busy + idle)
      whole =
          sym (add-mul (100 - idle * 100 / (busy + idle)) _ (busy + idle))
          ∙ ap (λ t. t * (busy + idle)) (omega (arith, hundred_idle))

      part : idle * 100 / (busy + idle) * (busy + idle) + idle * 100 % (busy + idle) ≡ idle * 100
      part = div-add-mod' (idle * 100) (busy + idle)

      rest : idle * 100 % (busy + idle) < busy + idle
      rest = mod-lt _ (omega arith)

  pub share-le-hundred : share busy idle ≤ 100
  share-le-hundred = omega (arith, share-complement)

clamped :
    (q : ℕ)
    → q ≤ 100
    → (let temp = sub_u64 100 q in if ltb temp 1 then 0 else temp % u32_mod) ≡ 100 - q
clamped q h = ground arith

-- Where the idle difference is not zero and the two differences add up to less than a hundredth of
-- 2 ^ 64, the stored percentage is the busy share rounded up, computed without wrapping.
pub percent-share :
    (busy idle : ℕ)
    → 0 < idle
    → 100 * (busy + idle) < u64_mod
    → percent busy idle ≡ some (share busy idle)
unfolding percent
percent-share busy idle h k =
    rw
      (
        mod-eq_of_lt {n = busy + idle} {m = u64_mod} (omega arith),
        mod-eq_of_lt {n = idle * 100} {m = u64_mod} (omega arith),
        ne→== (busy + idle) 0 (omega arith),
      )
      (ap some (clamped _ (hundred_idle busy idle h) ∙ sym (share-complement busy idle h)))

div-le-div_left : (x m n : ℕ) → 0 < m → m ≤ n → x / n ≤ x / m
div-le-div_left x m n h le =
    (le-div_iff_mul-le h).1 (le_trans (mul-le-mul_left (x / n) le) (div-mul-le_self x n))

-- More work in the same idle time is a larger share.
pub share_mono : (a b idle : ℕ) → 0 < idle → a ≤ b → share a idle ≤ share b idle
share_mono a b idle h le = omega (
  arith,
  share-complement a idle h,
  share-complement b idle h,
  div-le-div_left (idle * 100) (a + idle) (b + idle) (omega arith) (omega arith),
)

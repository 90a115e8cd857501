-- ===== src/Affinity/Text.antt =====
-- Numbers written to a proc file and read back by affinity.c.
use core_partitioning.Base.{
  ℕ, zero, suc, ◌+◌, ◌*◌, ◌/◌, ◌%◌, ◌^◌, ◌≤◌, ◌<◌, ◌≡◌, ◌≢◌, refl, sym, ap, ◌∙◌, List, [], ◌∷◌,
  ◌++◌, arith, length, length-append, All, All-append, ltb, ne→==, Bool-cases, inl, inr,
}
use native.Mathlib.Nat.{pow-succ'}
use core_partitioning.Affinity.{newline, digits, print, fgets, atoi, atoi_from}
use mathlib.Core.List.{append_assoc}

-- The text of a number: its characters are not line ends, and it is `most` characters long at most.
pub record Text (most n : ℕ) : Type 0 where
  pub chars : List ℕ
  pub before : (rest : List ℕ) → digits most n rest ≡ chars ++ rest
  pub plain : All (λ c. c ≢ newline) chars
  pub short : (k : ℕ) → n < 10 ^ k → 0 < k → length chars ≤ k

one_digit :
    (value c : ℕ) (cs : List ℕ)
    → c < 10
    → atoi_from value ((48 + c) ∷ cs) ≡ atoi_from (value * 10 + c) cs
unfolding atoi_from
one_digit value c cs h = ground arith

-- One digit less for a tenth.
tenth : (n k : ℕ) → 10 ≤ n → n < 10 ^ suc k → (n / 10 < 10 ^ k) × (0 < k)
tenth n zero h lt = absurd (omega arith)
tenth n (suc k) h lt = omega (arith, pow-succ' 10 (suc k))

-- Reading the digits of `n` makes `n`.
pub atoi_from-digits :
    (most n : ℕ) (rest : List ℕ)
    → n < 10 ^ most
    → 0 < most
    → atoi_from 0 (digits most n rest) ≡ atoi_from n rest
unfolding digits
atoi_from-digits zero n rest h k = absurd (omega arith)
atoi_from-digits (suc most) n rest h k = elim (Bool-cases (ltb n 10)) [
  | inl e ↦ rw e (one_digit 0 n rest (ground arith) ∙ ap (λ m. atoi_from m rest) (omega arith))
  | inr e ↦ rw e (
      atoi_from-digits most (n / 10) ((48 + n % 10) ∷ rest) (tenth n most (ground arith) h).0
        (tenth n most (ground arith) h).1
      ∙ one_digit (n / 10) (n % 10) rest (omega arith)
      ∙ ap (λ m. atoi_from m rest) (omega arith))
]

pub fgets-line :
    (most : ℕ) (chars rest : List ℕ)
    → All (λ c. c ≢ newline) chars
    → length chars < most
    → fgets most (chars ++ newline ∷ rest) ≡ (chars ++ newline ∷ [], rest)
unfolding fgets
fgets-line zero chars rest h k = absurd (omega arith)
fgets-line (suc most) [] rest h k = refl
fgets-line (suc most) (c ∷ chars) rest h k =
    rw (ne→== c newline h.0, fgets-line most chars rest h.1 (omega arith)) refl

shorter :
    {most : ℕ} (n k : ℕ) (t : Text most (n / 10))
    → 10 ≤ n
    → n < 10 ^ k
    → 0 < k
    → length t.chars + 1 ≤ k
shorter n zero t h lt p = absurd (omega arith)
shorter n (suc k) t h lt p =
    let (small, some) = tenth n k h lt in omega (arith, t.short k small some)

pub digits-Text : (most n : ℕ) → Text most n
unfolding digits
digits-Text zero n = record {
  chars = [];
  before = λ rest. refl;
  plain = tt;
  short = λ k h p. omega arith;
}
digits-Text (suc most) n = elim (Bool-cases (ltb n 10)) [
  | inl e ↦ record {
    chars = (48 + n) ∷ [];
    before = λ rest. rw e refl;
    plain = (ground arith, tt);
    short = λ k h p. omega arith;
  }
  | inr e ↦
      let t = digits-Text most (n / 10) in
      record {
        chars = t.chars ++ (48 + n % 10) ∷ [];
        before = λ rest. rw e (
            t.before ((48 + n % 10) ∷ rest) ∙ sym (append_assoc t.chars ((48 + n % 10) ∷ []) rest));
        plain = All-append (λ c. c ≢ newline) t.chars _ t.plain (ground arith, tt);
        short = λ k h p.
            omega
              (arith, length-append t.chars ((48 + n % 10) ∷ []), shorter n k t (ground arith) h p);
      }
]

-- A line of a file is read whole, and as the number it was printed for.
pub read_line :
    (most n : ℕ) (rest : List ℕ)
    → n < 10 ^ 7
    → 8 ≤ most
    → (fgets most (print n (newline ∷ rest)) ≡ (print n (newline ∷ []), rest))
      × (atoi (print n (newline ∷ [])) ≡ n)
unfolding atoi_from
read_line most n rest h long =
    let t = digits-Text 10 n in
    (
      rw (t.before (newline ∷ rest), t.before (newline ∷ []))
          (fgets-line most t.chars rest t.plain (omega (arith, t.short 7 h (omega arith)))),
      atoi_from-digits 10 n (newline ∷ []) (omega arith) (omega arith),
    )

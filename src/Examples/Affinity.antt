-- ===== src/Examples/Affinity.antt =====
-- The files of the kernel about a thread 7 of the process 5.
use core_partitioning.Base.{
  Bool, true, ◌!=◌, ◌≢◌, ◌&&◌, pos, ◌++◌, refl, ℕ, zero, suc, ◌≡◌, some, List, [], ◌∷◌, All, arith,
}
use core_partitioning.Affinity.{newline, atoi_from}
use core_partitioning.Affinity.Scan.{Conversion, integer}
use core_partitioning.Affinity.Status.{ProcFiles, tid_cpu, after_prefix}
use core_partitioning.Affinity.Status.Tgid.{text, tgid_line, stat_line, Other, tid_cpu-processor}
use core_partitioning.Affinity.Stat.{get_pid_cpu, skipped}
use core_partitioning.Affinity.Stat.Fields.{Matches}

-- A process with the name x, and numbers of one digit but for a parent of -1.
abbrev numbers : ℕ → List (List ℕ)
numbers zero = []
numbers (suc n) = (b'1' ∷ []) ∷ numbers n

abbrev front : List (List ℕ)
front = (b'5' ∷ []) ∷ (b'(' ∷ b'x' ∷ b')' ∷ []) ∷ (b'S' ∷ []) ∷ (b'-' ∷ b'1' ∷ []) ∷ numbers 34

abbrev integers : ℕ → List Conversion
integers zero = []
integers (suc n) = integer ∷ integers n

numbers-Matches : (n : ℕ) → Matches (integers n) (numbers n)
numbers-Matches zero = tt
numbers-Matches (suc n) = ((refl, (refl, tt)), ((λ e. cc), (refl, tt)), numbers-Matches n)

front-Matches : Matches skipped front
front-Matches = (
  (refl, (refl, tt)),
  ((λ e. cc), (refl, tt)),
  (
    tt,
    ((λ e. cc), (refl, (refl, (refl, tt)))),
    (
      refl,
      ((λ e. cc), (refl, tt)),
      ((refl, (refl, tt)), ((λ e. cc), (refl, (refl, tt))), numbers-Matches 34),
    ),
  ),
)

abbrev has_none : List ℕ → Bool
has_none [] = true
has_none (c ∷ cs) = c != newline && has_none cs

plain_text : (l : List ℕ) → has_none l ≡ true → All (λ c. c ≢ newline) l
plain_text [] h = tt
plain_text (c ∷ cs) h = (ground arith, plain_text cs (ground arith))

-- Name:, Umask: and Tgid: as the kernel prints them.
abbrev name_line : List ℕ
name_line = b'N' ∷ b'a' ∷ b'm' ∷ b'e' ∷ b':' ∷ 9 ∷ b'x' ∷ []

abbrev umask_line : List ℕ
umask_line = b'U' ∷ b'm' ∷ b'a' ∷ b's' ∷ b'k' ∷ b':' ∷ 9 ∷ b'2' ∷ []

abbrev before : List (List ℕ)
before = name_line ∷ umask_line ∷ []

abbrev files : ProcFiles
files = record {
  status = λ tid. some (text before (tgid_line 5 []));
  stat = λ pid tid. some (stat_line front (b'6' ∷ []) (b'0' ∷ []) (49 ∷ []) ++ newline ∷ []);
}

before-Other : All Other before
unfolding after_prefix
before-Other = (
  record { plain = plain_text name_line refl; short = omega arith; other = refl },
  (record { plain = plain_text umask_line refl; short = omega arith; other = refl }, tt),
)

tid_cpu-processor_example :
    (tid_cpu files 7 ≡ some (pos 6))
    × (get_pid_cpu (stat_line front (b'6' ∷ []) (b'0' ∷ []) (49 ∷ [])) ≡ some 0)
unfolding atoi_from
tid_cpu-processor_example =
    tid_cpu-processor files 7 5 before front (b'6' ∷ []) (b'0' ∷ []) [] (49 ∷ []) [] refl
      before-Other (omega arith) refl front-Matches ((λ e. cc), (refl, tt)) (refl, (refl, tt))
      ((λ e. cc), (refl, tt)) (plain_text (stat_line front (b'6' ∷ []) (b'0' ∷ []) (49 ∷ [])) refl)
      (omega arith)

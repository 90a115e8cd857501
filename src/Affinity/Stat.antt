-- ===== src/Affinity/Stat.antt =====
-- `get_pid_cpu` and `get_tid_cpu` of affinity.c, on the line that `fgets` has read from
-- /proc/<pid>/stat.
pub mod Fields
use core_partitioning.Base.{
  ℕ, ℤ, zero, suc, Option, none, some, ◌>>=◌, List, [], ◌∷◌, ◌==◌, if◌then◌else◌,
}
use core_partitioning.Affinity.{atoi}
use core_partitioning.Affinity.Scan.{Conversion, integer, word, character, scan, read_int}

abbrev pub space : ℕ
space = 32

unfoldable pub skip_spaces : List ℕ → List ℕ
skip_spaces [] = []
skip_spaces (c ∷ cs) = if c == space then skip_spaces cs else c ∷ cs

-- A word, and what follows the space after it.
unfoldable pub take_word : List ℕ → List ℕ × List ℕ
take_word [] = ([], [])
take_word (c ∷ cs) =
    let rest = take_word cs in if c == space then ([], cs) else (c ∷ rest.0, rest.1)

-- `strtok(line, " ")`; `none` is NULL.
unfoldable pub strtok : List ℕ → Option (List ℕ × List ℕ)
strtok line = elim (skip_spaces line) [ [] ↦ none | c ∷ cs ↦ some (take_word (c ∷ cs)) ]

-- `while (token != NULL) { token = strtok(NULL, " "); if (i == 38) break; i++; }`: `left` is 38 - i.
unfoldable pub next_token : (left : ℕ) → (rest : List ℕ) → Option (List ℕ × List ℕ)
next_token zero rest = strtok rest
next_token (suc left) rest = strtok rest >>= λ token. next_token left token.1

-- `atoi` of NULL is a fault.
unfoldable pub get_pid_cpu : (stat : List ℕ) → Option ℕ
get_pid_cpu stat = strtok stat >>= λ token. next_token 38 token.1 >>= λ found. some (atoi found.0)

-- `n` conversions of an integer.
abbrev integers : ℕ → List Conversion
integers zero = []
integers (suc n) = integer ∷ integers n

-- The conversions before the last, which stores the processor.
abbrev pub skipped : List Conversion
skipped = integer ∷ word ∷ character ∷ integers 35

-- `none` if a conversion does not match: `cpu` is not set then.
unfoldable pub get_tid_cpu : (buffer : List ℕ) → Option ℤ
get_tid_cpu buffer = scan skipped buffer >>= λ rest. read_int rest

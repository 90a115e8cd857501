-- ===== src/Affinity/Status.antt =====
-- `get_pid_from_tid` and the whole of `get_tid_cpu` of affinity.c, from the files below /proc, and
-- `set_affinity_within`. A file that cannot be opened is `none`.
pub mod Tgid
use core_partitioning.Base.{
  ℕ, zero, suc, ◌+◌, ℤ, pos, negsuc, Bool, true, false, ◌&&◌, ◌||◌, Option, none, some, ◌>>=◌, List,
  [], ◌∷◌, length, ltb, leb, ◌==◌, if◌then◌else◌,
}
use core_partitioning.Affinity.{fgets, atoi}
use core_partitioning.Affinity.Scan.{skip_blanks}
use core_partitioning.Affinity.Stat.{get_tid_cpu}

-- "Tgid:".
abbrev pub tgid : List ℕ
tgid = b'T' ∷ b'g' ∷ b'i' ∷ b'd' ∷ b':' ∷ []

-- `strncmp(line, prefix, strlen(prefix)) == 0`, with what follows the prefix.
unfoldable pub after_prefix : (prefix line : List ℕ) → Option (List ℕ)
after_prefix [] line = some line
after_prefix (p ∷ ps) [] = none
after_prefix (p ∷ ps) (c ∷ cs) = if c == p then after_prefix ps cs else none

-- `%d` of a number without a sign; without a digit the variable keeps its value.
unfoldable pub scan_int : (kept : ℤ) → List ℕ → ℤ
scan_int kept [] = kept
scan_int kept (c ∷ cs) = if leb 48 c && leb c 57 then pos (atoi (c ∷ cs)) else kept

abbrev pub line_max : ℕ
line_max = 255

-- `while (fgets(line, sizeof(line), fp) != NULL)`; `none` means that the fuel ran out.
unfoldable pub find_tgid : (fuel : ℕ) → (file : List ℕ) → Option ℤ
find_tgid zero file = none
find_tgid (suc fuel) [] = some (negsuc 0)
find_tgid (suc fuel) (c ∷ cs) =
    let line = fgets line_max (c ∷ cs) in
    let rest = find_tgid fuel line.1 in
    elim (after_prefix tgid line.0) [
      | some number ↦ some (scan_int (negsuc 0) (skip_blanks number))
      | none ↦ rest
    ]

unfoldable pub get_pid_from_tid : (status : Option (List ℕ)) → Option ℤ
get_pid_from_tid none = some (negsuc 0)
get_pid_from_tid (some file) = find_tgid (length file + 1) file

-- /proc/<tid>/status and /proc/<pid>/task/<tid>/stat.
pub record ProcFiles : Type 0 where
  pub status : (tid : ℕ) → Option (List ℕ)
  pub stat : (pid : ℤ) (tid : ℕ) → Option (List ℕ)

abbrev pub buffer_max : ℕ
buffer_max = 1023

-- `none` is an uninitialised result, of a line that does not match the format.
unfoldable pub tid_cpu_from : Option (List ℕ) → Option ℤ
tid_cpu_from none = some (negsuc 0)
tid_cpu_from (some []) = some (negsuc 0)
tid_cpu_from (some (c ∷ cs)) = get_tid_cpu (fgets buffer_max (c ∷ cs)).0

unfoldable pub tid_cpu : ProcFiles → (tid : ℕ) → Option ℤ
tid_cpu p tid = get_pid_from_tid (p.status tid) >>= λ pid. tid_cpu_from (p.stat pid tid)

-- ===== src/Affinity.antt =====
-- How a system call thread chooses its cores: `set_cpu` of affinity.c with SINGLE and `__FILEIO__`, from
-- the proc file that `show_stat_dynamic` of simple_proc_ktimer/simple_proc.c prints. A file is the
-- list of its characters' codes.
pub mod Text
pub mod Cores
pub mod Lines
pub mod Sockets
pub mod App
pub mod Scan
pub mod Stat
pub mod Status
pub mod Layout
pub mod Isolation
pub mod Files
use core_partitioning.Base.{
  ℕ, zero, suc, ◌+◌, ◌-◌, ◌*◌, ◌/◌, ◌%◌, Bool, ◌&&◌, List, [], ◌∷◌, ltb, leb, ◌==◌, if◌then◌else◌,
}
use core_partitioning.Kernel.Util.{max_cpus}
use core_partitioning.Kernel.Single.{Single}

abbrev pub newline : ℕ
newline = 10

-- `%d` of a value that is not negative, put before `rest`; an `int` has ten digits at most.
unfoldable pub digits : (most n : ℕ) → (rest : List ℕ) → List ℕ
digits zero n rest = rest
digits (suc most) n rest =
    if ltb n 10 then (48 + n) ∷ rest else digits most (n / 10) ((48 + n % 10) ∷ rest)

abbrev pub print : (n : ℕ) → (rest : List ℕ) → List ℕ
print n rest = digits 10 n rest

-- `show_stat_dynamic` with SINGLE.
unfoldable pub show_stat_dynamic : Single → List ℕ
show_stat_dynamic s = print s.net_end (newline ∷ print s.blk_start (newline ∷ []))

-- `fgets` of `most` characters at most: the line with its end, and the rest of the file.
unfoldable pub fgets : (most : ℕ) → List ℕ → List ℕ × List ℕ
fgets zero file = ([], file)
fgets (suc most) [] = ([], [])
fgets (suc most) (c ∷ file) =
    if c == newline then (c ∷ [], file) else (c ∷ (fgets most file).0, (fgets most file).1)

-- `atoi` of digits: it stops at the first other character.
unfoldable pub atoi_from : (value : ℕ) → List ℕ → ℕ
atoi_from value [] = value
atoi_from value (c ∷ cs) =
    if leb 48 c && leb c 57 then atoi_from (value * 10 + (c - 48)) cs else value

abbrev pub atoi : List ℕ → ℕ
atoi cs = atoi_from 0 cs

-- `for (cpu = first; cpu < last; cpu++) CPU_SET(cpu, &mask);`
unfoldable pub cpu_set : (rounds first : ℕ) → List ℕ
cpu_set zero first = []
cpu_set (suc rounds) first = first ∷ cpu_set rounds (first + 1)

-- `set_cpu`: the cores of the mask that the thread gets; 0 is for network, all else for files.
unfoldable pub set_cpu : (net_or_file : ℕ) → (dynamic : List ℕ) → List ℕ
set_cpu kind dynamic =
    let first_line = fgets 8 dynamic in
    let second_line = fgets 8 first_line.1 in
    let net_end = atoi first_line.0 in
    let file_start = atoi second_line.0 in
    if kind == 0
    then cpu_set (file_start - (net_end + 1)) (net_end + 1)
    else cpu_set (max_cpus - file_start) file_start

-- ===== src/Affinity/Status/Tgid.antt =====
-- What `get_pid_from_tid` and `get_tid_cpu` of affinity.c find in the files of the kernel.
use core_partitioning.Base.{
  ℕ, zero, suc, ◌+◌, ◌/◌, ◌%◌, ◌^◌, ◌≤◌, ◌<◌, ◌≡◌, ◌≢◌, refl, ap, ◌∙◌, ℤ, pos, negsuc, none, some,
  ◌>>=◌, List, [], ◌∷◌, ◌++◌, arith, length, length-append, All, ltb, Bool-cases, inl, inr,
}
use core_partitioning.Affinity.{newline, digits, print, fgets, atoi}
use core_partitioning.Affinity.Text.{fgets-line, digits-Text, read_line}
use core_partitioning.Affinity.Scan.{skip_blanks}
use core_partitioning.Affinity.Stat.{space, get_pid_cpu, get_tid_cpu, skipped}
use core_partitioning.Affinity.Stat.Fields.{Word, Digits, Matches, spaced, cpu_fields}
use mathlib.Core.List.{append_assoc}
use core_partitioning.Affinity.Status.{
  buffer_max, tgid, after_prefix, scan_int, line_max, find_tgid, get_pid_from_tid, ProcFiles,
  tid_cpu_from, tid_cpu,
}

-- Lines before `file`.
abbrev pub text : List (List ℕ) → (file : List ℕ) → List ℕ
text [] file = file
text (l ∷ ls) file = l ++ newline ∷ text ls file

-- A line that fits the buffer and does not begin with "Tgid:".
pub record Other (l : List ℕ) : Type 0 where
  pub plain : All (λ c. c ≢ newline) l
  pub short : length l < line_max
  pub other : after_prefix tgid (l ++ newline ∷ []) ≡ none

-- "Tgid:", a tab and the number.
abbrev pub tgid_line : (pid : ℕ) → (rest : List ℕ) → List ℕ
tgid_line pid rest = tgid ++ 9 ∷ print pid (newline ∷ rest)

-- A digit comes first.
record Digit (xs : List ℕ) : Type 0 where
  first : ℕ
  after : List ℕ
  split : xs ≡ first ∷ after
  above : 48 ≤ first
  below : first ≤ 57

digits_before : (most n c : ℕ) (cs : List ℕ) → 48 ≤ c → c ≤ 57 → Digit (digits most n (c ∷ cs))
unfolding digits
digits_before zero n c cs h k = record { first = c; after = cs; split = refl; above = h; below = k }
digits_before (suc most) n c cs h k = elim (Bool-cases (ltb n 10)) [
  | inl e ↦ rw e (record {
    first = 48 + n;
    after = c ∷ cs;
    split = refl;
    above = omega arith;
    below = ground arith;
  })
  | inr e ↦ rw e (digits_before most (n / 10) (48 + n % 10) (c ∷ cs) (omega arith) (omega arith))
]

print-Digit : (n : ℕ) (rest : List ℕ) → Digit (print n rest)
unfolding digits
print-Digit n rest = elim (Bool-cases (ltb n 10)) [
  | inl e ↦ rw e (record {
    first = 48 + n;
    after = rest;
    split = refl;
    above = omega arith;
    below = ground arith;
  })
  | inr e ↦ rw e (digits_before 9 (n / 10) (48 + n % 10) rest (omega arith) (omega arith))
]

scan-Digit : (kept : ℤ) (xs : List ℕ) → Digit xs → scan_int kept (skip_blanks xs) ≡ pos (atoi xs)
unfolding scan_int skip_blanks
scan-Digit kept xs d = rw d.split (ground (arith, d.above, d.below))

-- One line is read.
find_line :
    (fuel : ℕ) (l rest : List ℕ)
    → All (λ c. c ≢ newline) l
    → length l < line_max
    → find_tgid (suc fuel) (l ++ newline ∷ rest) ≡ (elim (after_prefix tgid (l ++ newline ∷ [])) [
      | some number ↦ some (scan_int (negsuc 0) (skip_blanks number))
      | none ↦ find_tgid fuel rest
    ])
unfolding find_tgid
find_line fuel [] rest plain short =
    let e = fgets-line line_max [] rest plain short in
    λ i. elim (after_prefix tgid (e i).0) [
      | some number ↦ some (scan_int (negsuc 0) (skip_blanks number))
      | none ↦ find_tgid fuel (e i).1
    ]
find_line fuel (c ∷ cs) rest plain short =
    let e = fgets-line line_max (c ∷ cs) rest plain short in
    λ i. elim (after_prefix tgid (e i).0) [
      | some number ↦ some (scan_int (negsuc 0) (skip_blanks number))
      | none ↦ find_tgid fuel (e i).1
    ]

-- Other lines are passed over, one for each round.
find_past :
    (found : ℤ) (file : List ℕ)
    → ((fuel : ℕ) → find_tgid (suc fuel) file ≡ some found)
    → (ls : List (List ℕ)) (fuel : ℕ) → All Other ls
    → length ls < fuel
    → find_tgid fuel (text ls file) ≡ some found
find_past found file end ls zero others enough = absurd (omega arith)
find_past found file end [] (suc fuel) others enough = end fuel
find_past found file end (l ∷ ls) (suc fuel) others enough =
    find_line fuel l (text ls file) others.0.plain others.0.short
    ∙ rw others.0.other (find_past found file end ls fuel others.1 (omega arith))

find_here :
    (pid : ℕ) (rest : List ℕ)
    → pid < 10 ^ 7
    → (fuel : ℕ) → find_tgid (suc fuel) (tgid_line pid rest) ≡ some (pos pid)
unfolding after_prefix skip_blanks
find_here pid rest h fuel =
    let t = digits-Text 10 pid in
    let plain : All (λ c. c ≢ newline) (tgid ++ 9 ∷ t.chars) = (
      omega arith,
      (omega arith, (omega arith, (omega arith, (omega arith, (omega arith, t.plain))))),
    ) in
    rw (t.before (newline ∷ rest)) (
      find_line fuel (tgid ++ 9 ∷ t.chars) rest plain (omega (arith, t.short 7 h (omega arith)))
      ∙ rw (← t.before (newline ∷ [])) (
          ap some (
            scan-Digit (negsuc 0) (print pid (newline ∷ [])) (print-Digit pid (newline ∷ []))
            ∙ ap pos (read_line 8 pid [] h (omega arith)).1)))

length-text : (ls : List (List ℕ)) (file : List ℕ) → length ls ≤ length (text ls file)
length-text [] file = omega arith
length-text (l ∷ ls) file =
    omega (arith, length-append l (newline ∷ text ls file), length-text ls file)

-- If the lines before the one with "Tgid:" fit the buffer and do not begin so, `get_pid_from_tid` returns
-- the number, below 10^7, that the kernel has printed there; without such a line, and without the
-- file, it returns -1.
pub get_pid_from_tid-text :
    (ls : List (List ℕ)) (pid : ℕ) (rest : List ℕ)
    → All Other ls
    → pid < 10 ^ 7
    → (get_pid_from_tid (some (text ls (tgid_line pid rest))) ≡ some (pos pid))
      × (get_pid_from_tid (some (text ls [])) ≡ some (negsuc 0))
      × (get_pid_from_tid none ≡ some (negsuc 0))
unfolding get_pid_from_tid find_tgid
get_pid_from_tid-text ls pid rest others h = (
  find_past (pos pid) (tgid_line pid rest) (find_here pid rest h) ls _ others
      (omega (arith, length-text ls (tgid_line pid rest))),
  find_past (negsuc 0) [] (λ fuel. refl) ls _ others (omega (arith, length-text ls [])),
  refl,
)

spaced-append :
    (ws : List (List ℕ)) (end more : List ℕ) → spaced ws end ++ more ≡ spaced ws (end ++ more)
spaced-append [] end more = refl
spaced-append (w ∷ ws) end more =
    append_assoc w (space ∷ spaced ws end) more
    ∙ ap (λ s. w ++ space ∷ s) (spaced-append ws end more)

nonempty :
    (line rest read : List ℕ)
    → fgets buffer_max (line ++ newline ∷ rest) ≡ (read, rest)
    → tid_cpu_from (some (line ++ newline ∷ rest)) ≡ get_tid_cpu read
unfolding tid_cpu_from
nonempty [] rest read e = ap (λ r. get_tid_cpu r.0) e
nonempty (c ∷ cs) rest read e = ap (λ r. get_tid_cpu r.0) e

-- A line of the stat file.
abbrev pub stat_line : (front : List (List ℕ)) (cpu next end : List ℕ) → List ℕ
stat_line front cpu next end = spaced front (spaced (cpu ∷ next ∷ []) end)

-- If the status file of the thread is as the kernel prints it, with a process id below 10^7, and the line
-- of its stat file fits the buffer and begins with 38 words that match the conversions of the format
-- (numbers, but for the second, a word without white space, and the third, one character), a number
-- without a sign, and a fortieth word, then `get_tid_cpu` finds the process and returns that number,
-- the processor. On the same line `get_pid_cpu` reads the fortieth word.
pub tid_cpu-processor :
    (p : ProcFiles) (tid pid : ℕ) (ls front : List (List ℕ)) (cpu next rest end more : List ℕ)
    → p.status tid ≡ some (text ls (tgid_line pid rest))
    → All Other ls
    → pid < 10 ^ 7
    → p.stat (pos pid) tid ≡ some (stat_line front cpu next end ++ newline ∷ more)
    → Matches skipped front
    → Word cpu
    → Digits cpu
    → Word next
    → All (λ c. c ≢ newline) (stat_line front cpu next end)
    → length (stat_line front cpu next end) < buffer_max
    → (tid_cpu p tid ≡ some (pos (atoi cpu)))
      × (get_pid_cpu (stat_line front cpu next end) ≡ some (atoi next))
unfolding tid_cpu
tid_cpu-processor p tid pid ls front cpu next rest end more status others small stat m here number
      after plain short =
    (
      rw (status, (get_pid_from_tid-text ls pid rest others small).0, ◌>>=◌, stat)
          (nonempty (stat_line front cpu next end) more
              (stat_line front cpu next end ++ newline ∷ [])
              (fgets-line buffer_max (stat_line front cpu next end) more plain short)
            ∙ rw
                (
                  spaced-append front (spaced (cpu ∷ next ∷ []) end) (newline ∷ []),
                  spaced-append (cpu ∷ next ∷ []) end (newline ∷ []),
                )
                (cpu_fields front cpu next (end ++ newline ∷ []) m here number after).0),
      (cpu_fields front cpu next end m here number after).1,
    )

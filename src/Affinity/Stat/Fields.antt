-- ===== src/Affinity/Stat/Fields.antt =====
-- Which field of /proc/<pid>/stat the two readers of affinity.c take.
use core_partitioning.Base.{
  ◌*◌, ◌-◌, ◌+◌, pos, true, false, ◌∙◌, ◌==◌, ◌||◌, Bool-cases, inl, inr, All-mono, All-append,
  length-append, ℕ, zero, suc, ◌<◌, ◌≡◌, ◌≢◌, refl, ap, some, ◌>>=◌, List, [], ◌∷◌, ◌++◌, arith,
  length, get_elem?, All, ne→==,
}
use mathlib.Core.Path.{subst}
use core_partitioning.Affinity.{atoi, atoi_from}
use core_partitioning.Affinity.Scan.{
  is_blank, skip_blanks, is_digit, starts_number, drop_sign, skip_digits, skip_word, Conversion,
  integer, word, character, convert, scan, read_signed, read_int,
}
use core_partitioning.Affinity.Stat.{
  space, skip_spaces, take_word, strtok, next_token, get_pid_cpu, get_tid_cpu, skipped,
}

abbrev pub Word : List ℕ → Type 0
Word w = (w ≢ []) × All (λ c. is_blank c ≡ false) w

no_space : (w : List ℕ) → All (λ c. is_blank c ≡ false) w → All (λ c. c ≢ space) w
no_space w h = All-mono (λ c. is_blank c ≡ false) _ w (λ c k. ground (arith, k)) h

-- The words, each with a space after it, and then the end of the line.
abbrev pub spaced : List (List ℕ) → List ℕ → List ℕ
spaced [] end = end
spaced (w ∷ ws) end = w ++ space ∷ spaced ws end

take_word-Word :
    (w rest : List ℕ) → All (λ c. c ≢ space) w → take_word (w ++ space ∷ rest) ≡ (w, rest)
unfolding take_word
take_word-Word [] rest h = refl
take_word-Word (c ∷ cs) rest h = rw (ne→== c space h.0, take_word-Word cs rest h.1) refl

strtok-Word : (w rest : List ℕ) → Word w → strtok (w ++ space ∷ rest) ≡ some (w, rest)
unfolding strtok skip_spaces
strtok-Word [] rest h = absurd (h.0 refl)
strtok-Word (c ∷ cs) rest h =
    let k = no_space (c ∷ cs) h.1 in
    rw (strtok, ne→== c space k.0) (ap some (take_word-Word (c ∷ cs) rest k))

next_token-Word :
    (k : ℕ) (ws : List (List ℕ)) (end : List ℕ)
    → All Word ws
    → k < length ws
    → (next_token k (spaced ws end) >>= λ found. some (atoi found.0))
      ≡ (get_elem? ws k >>= λ w. some (atoi w))
unfolding next_token
next_token-Word k [] end h lt = absurd (omega arith)
next_token-Word zero (w ∷ ws) end h lt = rw (strtok-Word w (spaced ws end) h.0)
next_token-Word (suc k) (w ∷ ws) end h lt =
    rw (strtok-Word w (spaced ws end) h.0) (next_token-Word k ws end h.1 (omega arith))

-- A number without a sign.
abbrev pub Digits : List ℕ → Type 0
Digits w = (starts_number w ≡ true) × All (λ c. is_digit c ≡ true) w

-- What a conversion takes, as a whole word.
abbrev pub Fits : Conversion → List ℕ → Type 0
Fits integer w = Digits (drop_sign w)
Fits word w = Unit {0}
Fits character w = length w ≡ 1

-- One word for each conversion.
abbrev pub Matches : List Conversion → List (List ℕ) → Type 0
Matches [] [] = Unit {0}
Matches [] (w ∷ ws) = ⊥
Matches (f ∷ fs) [] = ⊥
Matches (f ∷ fs) (w ∷ ws) = Fits f w × Word w × Matches fs ws

skip_digits-Digits :
    (w rest : List ℕ)
    → All (λ c. is_digit c ≡ true) w
    → skip_digits (w ++ space ∷ rest) ≡ space ∷ rest
unfolding skip_digits
skip_digits-Digits [] rest h = refl
skip_digits-Digits (c ∷ cs) rest h = rw (h.0, skip_digits-Digits cs rest h.1)

skip_word-Word :
    (w rest : List ℕ)
    → All (λ c. is_blank c ≡ false) w
    → skip_word (w ++ space ∷ rest) ≡ space ∷ rest
unfolding skip_word
skip_word-Word [] rest h = refl
skip_word-Word (c ∷ cs) rest h = rw (h.0, skip_word-Word cs rest h.1)

starts_number-append : (w rest : List ℕ) → starts_number w ≡ true → starts_number (w ++ rest) ≡ true
starts_number-append [] rest h = ground (arith, h)
starts_number-append (c ∷ cs) rest h = h

drop_sign-append :
    (c : ℕ) (cs rest : List ℕ) → drop_sign ((c ∷ cs) ++ rest) ≡ drop_sign (c ∷ cs) ++ rest
drop_sign-append c cs rest = elim (Bool-cases ((c == 45) || (c == 43))) [
  | inl e ↦ rw e
  | inr e ↦ rw e
]

convert-Fits :
    (f : Conversion) (w rest : List ℕ)
    → Word w
    → Fits f w
    → convert f (w ++ space ∷ rest) ≡ some (space ∷ rest)
unfolding convert
convert-Fits f [] rest h fits = absurd (h.0 refl)
convert-Fits integer (c ∷ cs) rest h fits = rw (
  drop_sign-append c cs (space ∷ rest),
  starts_number-append (drop_sign (c ∷ cs)) (space ∷ rest) fits.0,
  skip_digits-Digits (drop_sign (c ∷ cs)) rest fits.1,
)
convert-Fits word (c ∷ cs) rest h fits = ap some (skip_word-Word (c ∷ cs) rest h.1)
convert-Fits character (c ∷ []) rest h fits = refl
convert-Fits character (c ∷ d ∷ cs) rest h fits = absurd (omega arith)

skip_blanks-Word : (w rest : List ℕ) → Word w → skip_blanks (w ++ space ∷ rest) ≡ w ++ space ∷ rest
unfolding skip_blanks
skip_blanks-Word [] rest h = absurd (h.0 refl)
skip_blanks-Word (c ∷ cs) rest h = rw h.1.0

atoi_from-Digits :
    (w : List ℕ) (v : ℕ) (rest : List ℕ)
    → All (λ c. is_digit c ≡ true) w
    → atoi_from v (w ++ space ∷ rest) ≡ atoi_from v w
unfolding atoi_from
atoi_from-Digits [] v rest h = refl
atoi_from-Digits (c ∷ cs) v rest h = rw h.0 (atoi_from-Digits cs (v * 10 + (c - 48)) rest h.1)

not_sign : (c : ℕ) → is_digit c ≡ true → ((c == 45) ≡ false) × ((c == 43) ≡ false)
not_sign c h = ground (arith, h)

read_int-Digits :
    (w rest : List ℕ) → Word w → Digits w → read_int (w ++ space ∷ rest) ≡ some (pos (atoi w))
unfolding read_int skip_blanks
read_int-Digits [] rest h d = absurd (h.0 refl)
read_int-Digits (c ∷ cs) rest h d = ap read_signed (skip_blanks-Word (c ∷ cs) rest h) ∙ signed
  where
    n : ((c == 45) ≡ false) × ((c == 43) ≡ false)
    n = not_sign c d.0

    signed : read_signed ((c ∷ cs) ++ space ∷ rest) ≡ some (pos (atoi (c ∷ cs)))
    signed = rw (n.0, n.1, d.0) (ap (λ v. some (pos v)) (atoi_from-Digits (c ∷ cs) 0 rest d.1))

-- What is before the input of a conversion does not matter.
module _ (cpu end : List ℕ) (fits : Word cpu × Digits cpu) where
  scan-Matches :
      (fs : List Conversion) (front : List (List ℕ))
      → Matches fs front
      → (scan fs (space ∷ spaced front (cpu ++ space ∷ end)) >>= λ rest. read_int rest)
        ≡ some (pos (atoi cpu))
  unfolding scan skip_blanks read_int
  scan-Matches [] [] m = read_int-Digits cpu end fits.0 fits.1
  scan-Matches [] (w ∷ ws) m = absurd m
  scan-Matches (f ∷ fs) [] m = absurd m
  scan-Matches (f ∷ fs) (w ∷ ws) m =
      rw
        (
          skip_blanks-Word w (spaced ws (cpu ++ space ∷ end)) m.1,
          convert-Fits f w (spaced ws (cpu ++ space ∷ end)) m.1 m.0,
        )
        (scan-Matches fs ws m.2)

  get_tid_cpu-Matches :
      (front : List (List ℕ))
      → Matches skipped front
      → get_tid_cpu (spaced front (cpu ++ space ∷ end)) ≡ some (pos (atoi cpu))
  unfolding get_tid_cpu scan skip_blanks
  get_tid_cpu-Matches front m = scan-Matches skipped front m

spaced-both :
    (ws vs : List (List ℕ)) (end : List ℕ) → spaced (ws ++ vs) end ≡ spaced ws (spaced vs end)
spaced-both [] vs end = refl
spaced-both (w ∷ ws) vs end = ap (λ s. w ++ space ∷ s) (spaced-both ws vs end)

Matches-Word : (fs : List Conversion) (ws : List (List ℕ)) → Matches fs ws → All Word ws
Matches-Word fs [] m = tt
Matches-Word [] (w ∷ ws) m = absurd m
Matches-Word (f ∷ fs) (w ∷ ws) m = (m.1, Matches-Word fs ws m.2)

length-Matches : (fs : List Conversion) (ws : List (List ℕ)) → Matches fs ws → length ws ≡ length fs
length-Matches [] [] m = refl
length-Matches [] (w ∷ ws) m = absurd m
length-Matches (f ∷ fs) [] m = absurd m
length-Matches (f ∷ fs) (w ∷ ws) m = ap suc (length-Matches fs ws m.2)

get_elem?-second :
    (ws : List (List ℕ)) (v w : List ℕ) → get_elem? (ws ++ v ∷ w ∷ []) (suc (length ws)) ≡ some w
get_elem?-second [] v w = refl
get_elem?-second (x ∷ ws) v w = get_elem?-second ws v w

-- On a line whose words match the conversions of `get_tid_cpu`, the thirty-ninth a number, `get_tid_cpu`
-- reads that one, but `get_pid_cpu` reads the fortieth word.
pub cpu_fields :
    (front : List (List ℕ)) (cpu next end : List ℕ)
    → Matches skipped front
    → Word cpu
    → Digits cpu
    → Word next
    → (get_tid_cpu (spaced front (spaced (cpu ∷ next ∷ []) end)) ≡ some (pos (atoi cpu)))
      × (get_pid_cpu (spaced front (spaced (cpu ∷ next ∷ []) end)) ≡ some (atoi next))
unfolding get_pid_cpu
cpu_fields [] cpu next end m here number after = absurd m
cpu_fields (w ∷ ws) cpu next end m here number after = (
  get_tid_cpu-Matches cpu (next ++ space ∷ end) (here, number) (w ∷ ws) m,
  rw (strtok-Word w (spaced ws (spaced (cpu ∷ next ∷ []) end)) m.1) (
      rw (← spaced-both ws (cpu ∷ next ∷ []) end)
        (next_token-Word 38 (ws ++ cpu ∷ next ∷ []) end words enough ∙ rw found refl)),
)
  where
    long : length ws ≡ 37
    long = omega (arith, length-Matches skipped (w ∷ ws) m)

    words : All Word (ws ++ cpu ∷ next ∷ [])
    words =
        All-append Word ws (cpu ∷ next ∷ []) (Matches-Word skipped (w ∷ ws) m).1 (here, (after, tt))

    enough : 38 < length (ws ++ cpu ∷ next ∷ [])
    enough = omega (arith, long, length-append ws (cpu ∷ next ∷ []))

    found : get_elem? (ws ++ cpu ∷ next ∷ []) 38 ≡ some next
    found =
        subst (λ n. get_elem? (ws ++ cpu ∷ next ∷ []) (suc n) ≡ some next) long
          (get_elem?-second ws cpu next)

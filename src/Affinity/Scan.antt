-- ===== src/Affinity/Scan.antt =====
-- `sscanf` as affinity.c uses it, on numbers that fit their type. `%li`, which would also read octal and
-- hexadecimal numbers, is taken as `%ld`: the kernel prints neither. A conversion that does not match
-- ends the scan: `none`.
use core_partitioning.Base.{
  ℕ, zero, suc, ℤ, pos, negsuc, Bool, false, ◌&&◌, ◌||◌, Option, none, some, ◌>>=◌, List, [], ◌∷◌,
  leb, ◌==◌, if◌then◌else◌,
}
use core_partitioning.Affinity.{atoi}

-- White space, which a blank in the format skips.
abbrev pub is_blank : ℕ → Bool
is_blank c = (c == 32) || (leb 9 c && leb c 13)

unfoldable pub skip_blanks : List ℕ → List ℕ
skip_blanks [] = []
skip_blanks (c ∷ cs) = if is_blank c then skip_blanks cs else c ∷ cs

abbrev pub is_digit : ℕ → Bool
is_digit c = leb 48 c && leb c 57

abbrev pub starts_number : List ℕ → Bool
starts_number [] = false
starts_number (c ∷ cs) = is_digit c

-- A sign, `-` or `+`.
abbrev pub drop_sign : List ℕ → List ℕ
drop_sign [] = []
drop_sign (c ∷ cs) = if (c == 45) || (c == 43) then cs else c ∷ cs

unfoldable pub skip_digits : List ℕ → List ℕ
skip_digits [] = []
skip_digits (c ∷ cs) = if is_digit c then skip_digits cs else c ∷ cs

unfoldable pub skip_word : List ℕ → List ℕ
skip_word [] = []
skip_word (c ∷ cs) = if is_blank c then c ∷ cs else skip_word cs

-- `%*d`, `%*u`, `%*lu` and their like; `%*s`; `%*c`.
pub data Conversion : Type 0 where
  integer : Conversion
  word : Conversion
  character : Conversion

-- What a conversion leaves of the input.
unfoldable pub convert : Conversion → List ℕ → Option (List ℕ)
convert integer cs = let n = drop_sign cs in if starts_number n then some (skip_digits n) else none
convert word [] = none
convert word (c ∷ cs) = some (skip_word (c ∷ cs))
convert character [] = none
convert character (c ∷ cs) = some cs

-- Conversions with a blank before each.
unfoldable pub scan : List Conversion → List ℕ → Option (List ℕ)
scan [] cs = some cs
scan (f ∷ fs) cs = convert f (skip_blanks cs) >>= λ rest. scan fs rest

abbrev pub negative : ℕ → ℤ
negative zero = pos 0
negative (suc n) = negsuc n

abbrev pub read_signed : List ℕ → Option ℤ
read_signed [] = none
read_signed (c ∷ cs) =
    if starts_number (drop_sign (c ∷ cs))
    then some (if c == 45 then negative (atoi cs) else pos (atoi (drop_sign (c ∷ cs))))
    else none

-- `%d` after a blank.
unfoldable pub read_int : List ℕ → Option ℤ
read_int cs = read_signed (skip_blanks cs)

-- ===== src/Affinity/Lines/RoundTrip.antt =====
-- Numbers printed one to a line are read back.
use core_partitioning.Base.{ℕ, ◌^◌, ◌≤◌, ◌<◌, ◌≡◌, refl, List, [], ◌∷◌, length, All}
use core_partitioning.Affinity.Text.{read_line}
use core_partitioning.Affinity.Lines.{lines, read_lines}

-- Numbers below 10^7, printed one to a line, are what as many rounds of `fgets` and `atoi` read, where
-- a buffer holds at least eight characters.
pub read_lines-lines :
    (most : ℕ) (ns : List ℕ)
    → 8 ≤ most
    → All (λ n. n < 10 ^ 7) ns
    → read_lines most (length ns) (lines ns) ≡ ns
unfolding read_lines
read_lines-lines most [] long h = refl
read_lines-lines most (n ∷ ns) long h =
    let (line, value) = read_line most n (lines ns) h.0 long in
    rw (line, value, read_lines-lines most ns long h.1)

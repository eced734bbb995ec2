-- ===== src/Libc/Strtol/Tests.antt =====
-- "-2147483649" in base 10, which is below `LONG_MIN`.
use eotan.Prelude.{ℕ, ◌^◌, refl, List, [], ◌∷◌}
use eotan.Libc.Strtoul.Text.{are_blank, are_bytes, worth, number, behind, minus, bare, has_form}
use eotan.Libc.Strtoul.Reads.{Reads}
use eotan.Libc.Strtol.{strtol}
use eotan.Libc.Strtol.Reads.{strtol-Reads}

abbrev below_min : List ℕ
below_min = 50 ∷ 49 ∷ 52 ∷ 55 ∷ 52 ∷ 56 ∷ 51 ∷ 54 ∷ 52 ∷ 57 ∷ []

strtol-Reads_example :
    Reads (2 ^ 31) (number 10 below_min 0) minus (behind 10 below_min) (strtol (45 ∷ below_min) 10)
unfolding are_blank are_bytes worth has_form
strtol-Reads_example = strtol-Reads [] minus bare below_min 10 10 refl refl refl refl

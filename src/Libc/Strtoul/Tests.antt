-- ===== src/Libc/Strtoul/Tests.antt =====
-- Numbers read: " -0x1Fz" in base 0, and "4294967296" in base 10.
use eotan.Prelude.{ℕ, ◌-◌, ◌^◌, ◌≡◌, refl, arith, List, [], ◌∷◌}
use eotan.Libc.Strtoul.{ulong_max, unchanged, strtoul}
use eotan.Libc.Strtoul.Laws.{numeral, after_digits, IsCut, strtoul_decimal}
use eotan.Libc.Strtoul.Text.{are_blank, are_bytes, worth, number, behind, minus, lower_x}
use eotan.Libc.Strtoul.Reads.{Reads, strtoul-Reads}

abbrev minus_hex : List ℕ
minus_hex = 32 ∷ 45 ∷ 48 ∷ 120 ∷ 49 ∷ 70 ∷ 122 ∷ []

abbrev too_large : List ℕ
too_large = 50 ∷ 57 ∷ 52 ∷ 57 ∷ 54 ∷ 55 ∷ 50 ∷ 57 ∷ 54 ∷ []

strtoul-Reads_example :
    Reads
      (2 ^ 32 - 1)
      (number 16 (49 ∷ 70 ∷ 122 ∷ []) 0)
      minus
      (behind 16 (49 ∷ 70 ∷ 122 ∷ []))
      (strtoul minus_hex 0)
unfolding are_blank are_bytes worth
strtoul-Reads_example =
    strtoul-Reads (32 ∷ []) minus lower_x (49 ∷ 70 ∷ 122 ∷ []) 0 16 refl refl refl refl

is_31 : (number 16 (49 ∷ 70 ∷ 122 ∷ []) 0 ≡ 31) × (behind 16 (49 ∷ 70 ∷ 122 ∷ []) ≡ 122 ∷ [])
unfolding number behind worth
is_31 = (refl, refl)

too_large_decimal :
    IsCut ulong_max
      (numeral 10 (52 ∷ too_large) 0)
      (after_digits 10 (52 ∷ too_large))
      unchanged
      (strtoul (52 ∷ too_large) 10)
too_large_decimal = strtoul_decimal 52 too_large (omega arith) (omega arith)

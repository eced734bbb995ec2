-- ===== src/Libc/Strtol.antt =====
-- Signed numbers read from text: lib/libc/stdlib/strtol.c, with a `long` of 32 bits, given as its bits.
-- The spaces, the sign, the prefix and the digits are read as in Libc/Strtoul, whose text the file repeats.
pub mod Laws
pub mod Reads
mod Tests
use eotan.Prelude.{ℕ, ◌+◌, ◌-◌, ◌*◌, ◌^◌, Bool, Option, none, some, List, ltb, ◌||◌, if◌then◌else◌}
use eotan.Libc.Strtoul.{
  Number, unchanged, einval, ulong_max, get_num, first, is_some, skip_space, sign, prefix,
  digits_from, negate,
}

-- `minus ? LONG_MIN : LONG_MAX` as an `unsigned long`
unfoldable pub long_limit : Bool → ℕ
long_limit minus = if minus then 2 ^ 31 else 2 ^ 31 - 1

-- One digit: `none` where `v` would overflow or leave the range.
unfoldable pub add_signed : ℕ → ℕ → ℕ → ℕ → Option ℕ
add_signed max base v n =
    if ltb ulong_max (v * base) || (ltb max (v * base) || ltb (max - v * base) n)
    then none
    else some (v * base + n)

unfoldable pub convert_signed : List ℕ → Bool → Option (ℕ × List ℕ) → Number
convert_signed str minus none = record { value = 0; end = str; errno = einval }
convert_signed str minus (some (base, r)) =
    if is_some (get_num (first r) base)
    then negate minus
        (digits_from (add_signed (long_limit minus) base) (long_limit minus) base r 0 unchanged)
    else record { value = 0; end = str; errno = unchanged }

unfoldable pub strtol : List ℕ → ℕ → Number
unfolding convert_signed
strtol str base = let (minus, r) = sign (skip_space str) in convert_signed str minus (prefix base r)

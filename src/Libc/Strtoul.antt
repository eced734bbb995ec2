-- ===== src/Libc/Strtoul.antt =====
-- Numbers read from text: lib/libc/stdlib/strtoul.c, with an `unsigned long` of 32 bits.  A string is the
-- list of its bytes before the NUL; a place in it is what is left of it.  A base is not negative.
pub mod Laws
pub mod Text
pub mod Reads
mod Tests
use eotan.Prelude.{
  ℕ, zero, suc, ◌+◌, ◌-◌, ◌*◌, ◌%◌, ◌^◌, Bool, true, false, Option, none, some, List, [], ◌∷◌, ◌==◌,
  leb, ltb, not, ◌&&◌, ◌||◌, if◌then◌else◌,
}
use eotan.Ctype.{isspace, toupper}

abbrev pub ulong_max : ℕ
ulong_max = 2 ^ 32 - 1

-- What the call does to `errno`.
pub data Errno : Type 0 where
  unchanged einval erange : Errno

-- The value, the place at `*endptr`, and `errno`.
pub record Number : Type 0 where
  pub value : ℕ
  pub end : List ℕ
  pub errno : Errno

upper : Option ℕ → ℕ
upper none = 0
upper (some c) = c

-- The value of a digit in any base; `none` for -1.
unfoldable pub digit : ℕ → Option ℕ
unfolding upper
digit chr =
    let c = upper (toupper (some chr)) in
    if leb 48 chr && leb chr 57
    then some (chr - 48)
    else if leb 65 c && leb c 90
    then some (c - 65 + 10)
    else none

below : ℕ → Option ℕ → Option ℕ
below base none = none
below base (some n) = if leb base n then none else some n

unfoldable pub get_num : ℕ → ℕ → Option ℕ
unfolding below
get_num chr base = below base (digit chr)

-- `*r`, which is the NUL at the end
unfoldable pub first : List ℕ → ℕ
first [] = 0
first (c ∷ rest) = c

unfoldable pub skip_space : List ℕ → List ℕ
skip_space [] = []
skip_space (c ∷ rest) =
    let next = skip_space rest in if isspace (some c) == 0 then c ∷ rest else next

-- The `switch` on the sign: whether it is a minus, and what follows.
unfoldable pub sign : List ℕ → Bool × List ℕ
sign [] = (false, [])
sign (c ∷ rest) =
    if c == 45 then (true, rest) else if c == 43 then (false, rest) else (false, c ∷ rest)

unfoldable pub is_some : Option ℕ → Bool
is_some none = false
is_some (some n) = true

-- Whether 0x and a hexadecimal digit follow, and the string behind the 0x if they do.
unfoldable pub hex_prefix : List ℕ → Option (List ℕ)
unfolding is_some upper
hex_prefix (z ∷ x ∷ rest) =
    if z == 48 && (upper (toupper (some x)) == 88 && is_some (get_num (first rest) 16))
    then some rest
    else none
hex_prefix _ = none

with_hex : Option (List ℕ) → ℕ × List ℕ → ℕ × List ℕ
with_hex none other = other
with_hex (some rest) other = (16, rest)

-- The base that is used, and where the digits begin; `none` where the base is not allowed.
unfoldable pub prefix : ℕ → List ℕ → Option (ℕ × List ℕ)
unfolding with_hex
prefix base r =
    if base == 0
    then some (if first r == 48 then with_hex (hex_prefix r) (8, r) else (10, r))
    else if ltb base 2 || ltb 36 base
    then none
    else if base == 16
    then some (with_hex (hex_prefix r) (16, r))
    else some (base, r)

-- One digit: `none` where `v` would overflow.
unfoldable pub add_digit : ℕ → ℕ → ℕ → Option ℕ
add_digit base v n =
    if ltb ulong_max (v * base) || ltb (ulong_max - v * base) n then none else some (v * base + n)

-- The loop over the digits, from the value `v` and `errno` on; `add` is its step for one digit.
unfoldable pub digits_from : (ℕ → ℕ → Option ℕ) → ℕ → ℕ → List ℕ → ℕ → Errno → Number
digits_from add max base [] v e = record { value = v; end = []; errno = e }
digits_from add max base (c ∷ rest) v e = elim (get_num c base) [
  | none ↦ record { value = v; end = c ∷ rest; errno = e }
  | some n ↦ elim (add v n) [
    | none ↦ digits_from add max base rest max erange
    | some v' ↦ digits_from add max base rest v' e
  ]
]

unfoldable pub negate : Bool → Number → Number
negate minus x = if minus then record x { value = (2 ^ 32 - x.value) % 2 ^ 32 } else x

-- Without a digit the call gives 0 and the place where it began.
unfoldable pub convert : List ℕ → Bool → Option (ℕ × List ℕ) → Number
unfolding negate is_some
convert str minus none = record { value = 0; end = str; errno = einval }
convert str minus (some (base, r)) =
    if is_some (get_num (first r) base)
    then negate minus (digits_from (add_digit base) ulong_max base r 0 unchanged)
    else record { value = 0; end = str; errno = unchanged }

unfoldable pub strtoul : List ℕ → ℕ → Number
unfolding convert sign skip_space prefix
strtoul str base = let (minus, r) = sign (skip_space str) in convert str minus (prefix base r)

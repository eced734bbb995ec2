-- ===== src/Libc/Strtoul/Text.antt =====
-- Numbers as text, apart from the code that reads them.
use eotan.Prelude.{
  ℕ, ◌+◌, ◌-◌, ◌*◌, ◌^◌, Bool, true, false, Option, none, some, List, [], ◌∷◌, ◌==◌, ◌&&◌, ◌||◌,
  ltb, if◌then◌else◌,
}
use eotan.Ctype.Laws.{within}

-- What a letter or a figure is worth as a digit of a base.
unfoldable pub worth : ℕ → ℕ → Option ℕ
worth base c =
    if within 48 57 c && ltb (c - 48) base
    then some (c - 48)
    else if within 65 90 c && ltb (c - 55) base
    then some (c - 55)
    else if within 97 122 c && ltb (c - 87) base
    then some (c - 87)
    else none

-- The number that the leading digits write, after the number `v`, and what stands behind them.
unfoldable pub number : ℕ → List ℕ → ℕ → ℕ
number base [] v = v
number base (c ∷ rest) v = elim (worth base c) [
  | none ↦ v
  | some n ↦ number base rest (v * base + n)
]

unfoldable pub behind : ℕ → List ℕ → List ℕ
behind base [] = []
behind base (c ∷ rest) = elim (worth base c) [ none ↦ c ∷ rest | some n ↦ behind base rest ]

abbrev pub is_digit : Option ℕ → Bool
is_digit none = false
is_digit (some n) = true

abbrev pub begins : List ℕ → ℕ
begins [] = 0
begins (c ∷ rest) = c

unfoldable pub are_bytes : List ℕ → Bool
are_bytes [] = true
are_bytes (c ∷ s) = let rest = are_bytes s in if ltb c 256 then rest else false

-- White space in the C locale
unfoldable pub are_blank : List ℕ → Bool
are_blank [] = true
are_blank (c ∷ s) = let rest = are_blank s in if within 9 13 c || c == 32 then rest else false

pub data Sign : Type 0 where
  no_sign plus minus : Sign

abbrev pub sign_text : Sign → List ℕ
sign_text no_sign = []
sign_text plus = 43 ∷ []
sign_text minus = 45 ∷ []

-- A `long` with its sign, in 32 bits
abbrev pub signed : Sign → ℕ → ℕ
signed no_sign n = n
signed plus n = n
signed minus n = if n == 0 then 0 else 2 ^ 32 - n

-- With 0x, with 0X, or without
pub data Form : Type 0 where
  bare lower_x upper_x : Form

abbrev pub form_text : Form → List ℕ
form_text bare = []
form_text lower_x = 48 ∷ 120 ∷ []
form_text upper_x = 48 ∷ 88 ∷ []

-- Whether a text begins with 0x or 0X and a hexadecimal digit.
unfoldable pub has_form : List ℕ → Bool
has_form (z ∷ x ∷ rest) = z == 48 && ((x == 88 || x == 120) && is_digit (worth 16 (begins rest)))
has_form _ = false

abbrev pub takes_form : ℕ → Bool
takes_form base = base == 0 || base == 16

-- The base of the digits of a text in one of the forms; `none` where the text is in another form.
abbrev pub in_base : ℕ → Form → List ℕ → Option ℕ
in_base base lower_x text = if takes_form base then some 16 else none
in_base base upper_x text = if takes_form base then some 16 else none
in_base base bare text =
    if takes_form base && has_form text
    then none
    else if base == 0
    then if begins text == 48 then some 8 else some 10
    else if within 2 36 base
    then some base
    else none

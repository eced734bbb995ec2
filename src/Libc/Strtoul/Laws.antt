-- ===== src/Libc/Strtoul/Laws.antt =====
-- The value that `strtoul` gives, against the number that the digits write.
use eotan.Prelude.{
  Option, ◌<◌, ℕ, ◌+◌, ◌*◌, ◌≤◌, ◌≡◌, refl, ap, ◌∙◌, arith, Bool, true, false, none, some, List, [],
  ◌∷◌, ◌==◌, ltb, if◌then◌else◌, Bool-cases, Option-cases, inl, inr,
}
use eotan.Ctype.{isspace}
use eotan.Ctype.Laws.{holds, byte-Classified}
use native.Mathlib.Nat.{mul-le-mul_left}
use eotan.Libc.Strtoul.{
  ulong_max, Errno, unchanged, erange, Number, get_num, first, skip_space, sign, prefix, add_digit,
  digits_from, convert, strtoul, negate, is_some, with_hex, digit, below,
}

-- The number that the leading digits of `s` write after `v`, without a bound, and what is left of `s`.
unfoldable pub numeral : ℕ → List ℕ → ℕ → ℕ
numeral base [] v = v
numeral base (c ∷ rest) v = elim (get_num c base) [
  | none ↦ v
  | some n ↦ numeral base rest (v * base + n)
]

unfoldable pub after_digits : ℕ → List ℕ → List ℕ
after_digits base [] = []
after_digits base (c ∷ rest) = elim (get_num c base) [
  | none ↦ c ∷ rest
  | some n ↦ after_digits base rest
]

-- `x` is the number `n` cut off at `max`, with `errno` for it, read up to `end`.
pub record IsCut (max n : ℕ) (end : List ℕ) (e : Errno) (x : Number) : Type 0 where
  pub value : x.value ≡ (if ltb max n then max else n)
  pub errno : x.errno ≡ (if ltb max n then erange else e)
  pub place : x.end ≡ end

-- A step that adds a digit unless the sum is beyond `max`.
abbrev pub AddsTo : ℕ → ℕ → (ℕ → ℕ → Option ℕ) → Type 0
AddsTo max base add =
    (v n : ℕ) → v ≤ max → add v n ≡ (if ltb max (v * base + n) then none else some (v * base + n))

pub add_digit-AddsTo : (base : ℕ) → AddsTo ulong_max base (add_digit base)
unfolding add_digit
add_digit-AddsTo base v n h = ground arith

module _ (base : ℕ) (b : 2 ≤ base) where
  le-times : (v n : ℕ) → v ≤ v * base + n
  le-times v n = omega (arith, mul-le-mul_left v b)

  numeral-le : (s : List ℕ) (v : ℕ) → v ≤ numeral base s v
  unfolding numeral
  numeral-le [] v = omega arith
  numeral-le (c ∷ rest) v = elim (Option-cases (get_num c base)) [
    | inl z ↦ rw (z, numeral) (omega arith)
    | inr (n, e) ↦ rw (e, numeral) (omega (arith, numeral-le rest (v * base + n), le-times v n))
  ]

module _ (base max : ℕ) (b : 2 ≤ base) (p : 0 < max) (add : ℕ → ℕ → Option ℕ)
    (adds : AddsTo max base add) where
  -- Once the value is `max` after an overflow it stays so.
  full :
      (s : List ℕ)
      → IsCut max (max + 1) (after_digits base s) unchanged (digits_from add max base s max erange)
  unfolding digits_from after_digits
  full [] = record { value = ground arith; errno = ground arith; place = refl }
  full (c ∷ rest) = elim (Option-cases (get_num c base)) [
    | inl z ↦
        rw (z, digits_from, after_digits)
          (record { value = ground arith; errno = ground arith; place = refl })
    | inr (n, e) ↦
        let over : add max n ≡ none = ground (arith, adds max n, mul-le-mul_left max b) in
        rw (e, digits_from, after_digits, over) (full rest)
  ]

  pub digits_from-IsCut :
      (s : List ℕ) (v : ℕ)
      → v ≤ max
      → IsCut max
          (numeral base s v)
          (after_digits base s)
          unchanged
          (digits_from add max base s v unchanged)
  unfolding digits_from numeral after_digits
  digits_from-IsCut [] v h = record { value = ground arith; errno = ground arith; place = refl }
  digits_from-IsCut (c ∷ rest) v h = elim (Option-cases (get_num c base)) [
    | inl z ↦
        rw (z, digits_from, after_digits, numeral)
          (record { value = ground arith; errno = ground arith; place = refl })
    | inr (n, e) ↦ elim (Bool-cases (ltb max (v * base + n))) [
      | inl y ↦
          let over : add v n ≡ none =
            adds v n h ∙ ap (λ b. if b then none else some (v * base + n)) y in
          let x = full rest in
          let more = numeral-le base b rest (v * base + n) in
          rw (e, digits_from, after_digits, numeral, over)
            (record {
              value = ground (arith, x.value, more);
              errno = ground (arith, x.errno, more);
              place = x.place;
            })
      | inr m ↦
          let fits : add v n ≡ some (v * base + n) =
            adds v n h ∙ ap (λ b. if b then none else some (v * base + n)) m in
          rw (e, digits_from, after_digits, numeral, fits)
            (digits_from-IsCut rest (v * base + n) (ground arith))
    ]
  ]

pub prefix_base : (base b : ℕ) (r d : List ℕ) → prefix base r ≡ some (b, d) → 2 ≤ b
unfolding prefix with_hex
prefix_base base b r d h = ground arith

pub strtoul-IsCut :
    (str r d : List ℕ) (minus : Bool) (base b : ℕ)
    → sign (skip_space str) ≡ (minus, r)
    → prefix base r ≡ some (b, d)
    → is_some (get_num (first d) b) ≡ true
    → (x : Number) × (strtoul str base ≡ negate minus x)
      × IsCut ulong_max (numeral b d 0) (after_digits b d) unchanged x
unfolding strtoul convert
strtoul-IsCut str r d minus base b s p h = (
  digits_from (add_digit b) ulong_max b d 0 unchanged,
  rw (s, p, h) refl,
  digits_from-IsCut b ulong_max (prefix_base base b r d p) (omega arith) (add_digit b)
      (add_digit-AddsTo b) d 0 (omega arith),
)

digit_no_space : (c : ℕ) → 48 ≤ c → c ≤ 57 → holds (isspace (some c)) ≡ false
digit_no_space c l h = (byte-Classified c (omega arith)).space ∙ ground arith

get_num_decimal : (c : ℕ) → 48 ≤ c → c ≤ 57 → is_some (get_num c 10) ≡ true
unfolding get_num is_some digit below
get_num_decimal c l h = ground arith

-- Of a string that begins with a decimal digit, the value in base 10 is the number that its
-- leading digits write, cut off at `ULONG_MAX` with `ERANGE`, and the place is behind them.
pub strtoul_decimal :
    (c : ℕ) (rest : List ℕ)
    → 48 ≤ c
    → c ≤ 57
    → IsCut ulong_max
        (numeral 10 (c ∷ rest) 0)
        (after_digits 10 (c ∷ rest))
        unchanged
        (strtoul (c ∷ rest) 10)
unfolding skip_space sign prefix first get_num negate
strtoul_decimal c rest l h =
    let space : (isspace (some c) == 0) ≡ true = ground (arith, digit_no_space c l h) in
    let start : sign (skip_space (c ∷ rest)) ≡ (false, c ∷ rest) = rw space (ground arith) in
    let here : is_some (get_num c 10) ≡ true = get_num_decimal c l h in
    let (x, e, cut) = strtoul-IsCut (c ∷ rest) (c ∷ rest) (c ∷ rest) false 10 10 start refl here in
    rw e cut

-- ===== src/Libc/Strtoul/Reads.antt =====
-- `strtoul` reads what is written.
use eotan.Prelude.{
  ℕ, ◌+◌, ◌-◌, ◌*◌, ◌^◌, ◌%◌, ◌<◌, ◌≡◌, refl, ◌∙◌, arith, Bool, true, false, none, some, List, [],
  ◌∷◌, ◌++◌, ◌==◌, ◌||◌, ltb, not, if◌then◌else◌, Bool-cases, Option-cases, inl, inr,
}
use eotan.Ctype.{isspace, toupper}
use eotan.Ctype.Laws.{within, byte-Classified, toupper_range}
use eotan.Libc.Strtoul.{
  unchanged, erange, Number, get_num, digit, below, upper, first, skip_space, sign, prefix,
  hex_prefix, with_hex, strtoul, negate, is_some,
}
use eotan.Libc.Strtoul.Laws.{numeral, after_digits, IsCut, strtoul-IsCut}
use eotan.Libc.Strtoul.Text.{
  worth, number, behind, is_digit, begins, are_bytes, are_blank, Sign, no_sign, plus, minus,
  sign_text, signed, Form, bare, lower_x, upper_x, form_text, has_form, takes_form, in_base,
}

-- `n` cut off at `limit`, with its sign, and where it ends
pub record Reads (limit n : ℕ) (s : Sign) (rest : List ℕ) (x : Number) : Type 0 where
  pub value : x.value ≡ signed s (if ltb limit n then limit else n)
  pub errno : x.errno ≡ (if ltb limit n then erange else unchanged)
  pub place : x.end ≡ rest

get_num-worth : (base c : ℕ) → c < 256 → get_num c base ≡ worth base c
unfolding get_num digit below upper worth
get_num-worth base c h = rw (toupper_range c h) (ground arith)

numeral-number :
    (base : ℕ) (s : List ℕ) (v : ℕ) → are_bytes s ≡ true → numeral base s v ≡ number base s v
unfolding numeral number are_bytes
numeral-number base [] v h = refl
numeral-number base (c ∷ s) v h =
    let e = get_num-worth base c (ground (arith, h)) in
    rw (e, numeral)
      (elim (Option-cases (worth base c)) [
        | inl n ↦ rw (n, numeral, number) refl
        | inr (n, w) ↦
            rw (w, numeral, number) (numeral-number base s (v * base + n) (ground (arith, h)))
      ])

after_digits-behind :
    (base : ℕ) (s : List ℕ) → are_bytes s ≡ true → after_digits base s ≡ behind base s
unfolding after_digits behind are_bytes
after_digits-behind base [] h = refl
after_digits-behind base (c ∷ s) h =
    let e = get_num-worth base c (ground (arith, h)) in
    rw (e, after_digits)
      (elim (Option-cases (worth base c)) [
        | inl n ↦ rw (n, after_digits, behind) refl
        | inr (n, w) ↦ rw (w, after_digits, behind) (after_digits-behind base s (ground (arith, h)))
      ])

blank_lem : (c : ℕ) → c < 256 → (isspace (some c) == 0) ≡ not (within 9 13 c || c == 32)
blank_lem c h = let e = (byte-Classified c h).space in ground (arith, e)

skip_blank :
    (spaces : List ℕ) (c : ℕ) (t : List ℕ)
    → are_blank spaces ≡ true
    → c < 256
    → (within 9 13 c || c == 32) ≡ false
    → skip_space (spaces ++ c ∷ t) ≡ c ∷ t
unfolding skip_space are_blank
skip_blank [] c t b h n = ground (arith, blank_lem c h, n)
skip_blank (x ∷ spaces) c t b h n =
    ground (arith, blank_lem x, b, skip_blank spaces c t (ground (arith, b)) h n)

abbrev pub is_minus : Sign → Bool
is_minus minus = true
is_minus _ = false

-- A text that begins with a digit of some base, and so with no space and no sign.
abbrev pub Starts : List ℕ → Type 0
Starts r =
    (c : ℕ) × (t : List ℕ) × (r ≡ c ∷ t)
    × (c < 256)
    × ((within 48 57 c || (within 65 90 c || within 97 122 c)) ≡ true)

body-Starts :
    (b : ℕ) (body : List ℕ)
    → are_bytes body ≡ true
    → is_digit (worth b (begins body)) ≡ true
    → Starts body
unfolding worth are_bytes
body-Starts b [] h d = let n : ⊥ = ground (arith, d) in elim n [ ]
body-Starts b (c ∷ t) h d = (c, t, refl, ground (arith, h), ground (arith, d))

pub form-Starts :
    (f : Form) (b : ℕ) (body : List ℕ)
    → are_bytes body ≡ true
    → is_digit (worth b (begins body)) ≡ true
    → Starts (form_text f ++ body)
form-Starts bare b body h d = body-Starts b body h d
form-Starts lower_x b body h d = (48, 120 ∷ body, refl, omega arith, refl)
form-Starts upper_x b body h d = (48, 88 ∷ body, refl, omega arith, refl)

pub sign_read :
    (spaces : List ℕ) (s : Sign) (r : List ℕ)
    → are_blank spaces ≡ true
    → Starts r
    → sign (skip_space (spaces ++ (sign_text s ++ r))) ≡ (is_minus s, r)
unfolding sign
sign_read spaces plus r h w = rw (skip_blank spaces 43 r h (omega arith) refl) refl
sign_read spaces minus r h w = rw (skip_blank spaces 45 r h (omega arith) refl) refl
sign_read spaces no_sign r h (c, t, e, l, d) =
    rw (e, skip_blank spaces c t h l (ground (arith, d))) (ground (arith, d))

abbrev past_form : List ℕ → List ℕ
past_form (z ∷ x ∷ rest) = rest
past_form _ = []

digit_read : (b c : ℕ) → c < 256 → is_some (get_num c b) ≡ is_digit (worth b c)
unfolding is_some
digit_read b c h =
    rw (get_num-worth b c h)
      (elim (Option-cases (worth b c)) [ inl n ↦ rw n refl | inr (n, w) ↦ rw w refl ])

begins_byte : (s : List ℕ) → are_bytes s ≡ true → begins s < 256
unfolding are_bytes
begins_byte [] h = omega arith
begins_byte (c ∷ s) h = ground (arith, h)

first-begins : (s : List ℕ) → first s ≡ begins s
unfolding first
first-begins [] = refl
first-begins (c ∷ s) = refl

upper_x_lem : (x : ℕ) → x < 256 → (upper (toupper (some x)) == 88) ≡ (x == 88 || x == 120)
unfolding upper
upper_x_lem x h = rw (toupper_range x h) (ground arith)

-- The prefix of a hexadecimal number is found just where it is.
hex_prefix-has_form :
    (r : List ℕ)
    → are_bytes r ≡ true
    → hex_prefix r ≡ (if has_form r then some (past_form r) else none)
unfolding hex_prefix has_form are_bytes
hex_prefix-has_form [] h = refl
hex_prefix-has_form (z ∷ []) h = refl
hex_prefix-has_form (z ∷ x ∷ rest) h =
    let e = upper_x_lem x (ground (arith, h)) in
    let d = digit_read 16 (begins rest) (begins_byte rest (ground (arith, h))) in
    rw (first-begins rest, e, d) refl

-- The text in hexadecimal form
hex_read :
    (x base b : ℕ) (body : List ℕ)
    → (x == 88 || x == 120) ≡ true
    → are_bytes body ≡ true
    → (if takes_form base then some 16 else none) ≡ some b
    → is_digit (worth b (begins body)) ≡ true
    → prefix base (48 ∷ x ∷ body) ≡ some (b, body)
unfolding prefix with_hex are_bytes has_form first
hex_read x base b body y h e d =
    let sixteen : b ≡ 16 = ground (arith, e) in
    let p : hex_prefix (48 ∷ x ∷ body) ≡ some body =
      hex_prefix-has_form (48 ∷ x ∷ body) (ground (arith, h, y)) ∙ (rw (y, ← sixteen, d) refl) in
    rw p (ground (arith, e))

pub prefix_read :
    (f : Form) (base b : ℕ) (body : List ℕ)
    → are_bytes body ≡ true
    → in_base base f body ≡ some b
    → is_digit (worth b (begins body)) ≡ true
    → prefix base (form_text f ++ body) ≡ some (b, body)
unfolding prefix with_hex
prefix_read lower_x base b body h e d = hex_read 120 base b body refl h e d
prefix_read upper_x base b body h e d = hex_read 88 base b body refl h e d
prefix_read bare base b body h e d =
    rw (first-begins body, hex_prefix-has_form body h)
      (elim (Bool-cases (has_form body)) [
        | inl y ↦ rw y (ground (arith, e, y))
        | inr n ↦ rw n (ground (arith, e, n))
      ])

negated : (m : ℕ) → m < 2 ^ 32 → (2 ^ 32 - m) % 2 ^ 32 ≡ (if m == 0 then 0 else 2 ^ 32 - m)
negated m h = ground arith

-- What the sign makes of a number
with_sign :
    (s : Sign) (limit n : ℕ) (rest : List ℕ) (x : Number)
    → limit < 2 ^ 32
    → IsCut limit n rest unchanged x
    → Reads limit n s rest (negate (is_minus s) x)
unfolding negate
with_sign no_sign limit n rest x l c = record { value = c.value; errno = c.errno; place = c.place }
with_sign plus limit n rest x l c = record { value = c.value; errno = c.errno; place = c.place }
with_sign minus limit n rest x l c = record {
  value = rw (c.value) (negated (if ltb limit n then limit else n) (ground (arith, l)));
  errno = c.errno;
  place = c.place;
}

-- What follows from what the loop over the digits gives.
pub signed_lem :
    (limit : ℕ) (s : Sign) (b : ℕ) (body : List ℕ) (x : Number)
    → limit < 2 ^ 32
    → are_bytes body ≡ true
    → IsCut limit (numeral b body 0) (after_digits b body) unchanged x
    → Reads limit (number b body 0) s (behind b body) (negate (is_minus s) x)
signed_lem limit s b body x l h c =
    with_sign s limit (number b body 0) (behind b body) x l
      (rw (numeral-number b body 0 h, after_digits-behind b body h) at c)

pub first_read :
    (b : ℕ) (body : List ℕ)
    → are_bytes body ≡ true
    → is_digit (worth b (begins body)) ≡ true
    → is_some (get_num (first body) b) ≡ true
first_read b body h d = rw (first-begins body) (digit_read b (begins body) (begins_byte body h) ∙ d)

-- Of a text of white space, then no sign, a plus or a minus, then 0x, 0X or neither, and then
-- bytes that begin with a digit, `strtoul` gives the number that the leading digits write, cut
-- off at 2^32 - 1 with `ERANGE`, negated in 32 bits for a minus, and leaves the place behind the
-- digits. The digits are those of ASCII in base 16 behind 0x or 0X, which the base 0 or 16 allows
-- and takes wherever a hexadecimal digit follows, and otherwise in the given base from 2 to 36,
-- or for the base 0 in base 8 behind a leading 0 and in base 10 without it.
pub strtoul-Reads :
    (spaces : List ℕ) (s : Sign) (f : Form) (body : List ℕ) (base b : ℕ)
    → are_blank spaces ≡ true
    → are_bytes body ≡ true
    → in_base base f body ≡ some b
    → is_digit (worth b (begins body)) ≡ true
    → Reads
        (2 ^ 32 - 1)
        (number b body 0)
        s
        (behind b body)
        (strtoul (spaces ++ (sign_text s ++ (form_text f ++ body))) base)
strtoul-Reads spaces s f body base b a h e d =
    let (x, y, c) =
      strtoul-IsCut (spaces ++ (sign_text s ++ (form_text f ++ body))) (form_text f ++ body) body
        (is_minus s) base b (sign_read spaces s (form_text f ++ body) a (form-Starts f b body h d))
        (prefix_read f base b body h e d) (first_read b body h d) in
    rw y (signed_lem (2 ^ 32 - 1) s b body x (omega arith) h c)

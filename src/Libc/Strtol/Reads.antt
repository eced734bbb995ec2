-- ===== src/Libc/Strtol/Reads.antt =====
-- `strtol` reads what is written.
use eotan.Prelude.{ℕ, ◌-◌, ◌^◌, ◌<◌, ◌≡◌, refl, arith, true, some, List, ◌++◌}
use eotan.Libc.Strtoul.Text.{
  number, behind, is_digit, worth, begins, are_bytes, are_blank, Sign, no_sign, plus, minus,
  sign_text, Form, form_text, in_base,
}
use eotan.Libc.Strtoul.Reads.{
  Reads, is_minus, sign_read, prefix_read, form-Starts, first_read, signed_lem,
}
use eotan.Libc.Strtol.{long_limit, strtol}
use eotan.Libc.Strtol.Laws.{strtol-IsCut}

-- The farthest from 0 that a `long` goes.
abbrev pub farthest : Sign → ℕ
farthest no_sign = 2 ^ 31 - 1
farthest plus = 2 ^ 31 - 1
farthest minus = 2 ^ 31

long_limit-farthest : (s : Sign) → long_limit (is_minus s) ≡ farthest s
unfolding long_limit
long_limit-farthest no_sign = refl
long_limit-farthest plus = refl
long_limit-farthest minus = refl

farthest_small : (s : Sign) → farthest s < 2 ^ 32
farthest_small no_sign = omega arith
farthest_small plus = omega arith
farthest_small minus = omega arith

-- Of a text of white space, then no sign, a plus or a minus, then 0x, 0X or neither, and then
-- bytes that begin with a digit, `strtol` gives the bits of the number that the sign and the
-- leading digits write, cut off with `ERANGE` at 2^31 behind a minus and at 2^31 - 1 otherwise,
-- and leaves the place behind the digits. The digits are those of ASCII in base 16 behind 0x or
-- 0X, which the base 0 or 16 allows and takes wherever a hexadecimal digit follows, and otherwise
-- in the given base from 2 to 36, or for the base 0 in base 8 behind a leading 0 and in base 10
-- without it.
pub strtol-Reads :
    (spaces : List ℕ) (s : Sign) (f : Form) (body : List ℕ) (base b : ℕ)
    → are_blank spaces ≡ true
    → are_bytes body ≡ true
    → in_base base f body ≡ some b
    → is_digit (worth b (begins body)) ≡ true
    → Reads
        (farthest s)
        (number b body 0)
        s
        (behind b body)
        (strtol (spaces ++ (sign_text s ++ (form_text f ++ body))) base)
strtol-Reads spaces s f body base b a h e d =
    let (x, y, c) =
      strtol-IsCut (spaces ++ (sign_text s ++ (form_text f ++ body))) (form_text f ++ body) body
        (is_minus s) base b (sign_read spaces s (form_text f ++ body) a (form-Starts f b body h d))
        (prefix_read f base b body h e d) (first_read b body h d) in
    rw y (signed_lem (farthest s) s b body x (farthest_small s) h (rw (long_limit-farthest s) at c))

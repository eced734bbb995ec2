-- ===== src/Ctype.antt =====
-- Character classes: lib/libnc/ctype/ctype.c.  A character is 0 to 255, or `none` for `EOF`; the code
-- reads the table at the character plus one.
pub mod Laws
mod Tests
use Prim.Native.Nat.{bit_and, bit_or}
use mathlib.Core.Option.{map}
use eotan.Prelude.{
  ℕ, zero, suc, ◌+◌, ◌-◌, ◌==◌, Option, none, some, List, [], ◌∷◌, ◌++◌, get_elem?, replicate,
  if◌then◌else◌,
}

abbrev c_n : ℕ
c_n = 0x00

abbrev c_u : ℕ
c_u = 0x01

abbrev c_l : ℕ
c_l = 0x02

abbrev c_x : ℕ
c_x = 0x04

abbrev c_d : ℕ
c_d = 0x08

abbrev c_p : ℕ
c_p = 0x10

abbrev c_c : ℕ
c_c = 0x20

abbrev c_s : ℕ
c_s = 0x40

abbrev c_w : ℕ
c_w = 0x80

-- The rows of `tbl`, with equal neighbours together: the control characters, the space, the
-- punctuation, digits and letters, and the bytes from 0x80 on.
abbrev pub tbl : List ℕ
tbl =
    c_n
    ∷ (replicate 9 c_c
        ++ (replicate 5 (bit_or c_c c_s)
            ++ (replicate 18 c_c
                ++ (bit_or c_s c_w
                    ∷ (replicate 15 c_p
                        ++ (replicate 10 c_d
                            ++ (replicate 7 c_p
                                ++ (replicate 6 (bit_or c_u c_x)
                                    ++ (replicate 20 c_u
                                        ++ (replicate 6 c_p
                                            ++ (replicate 6 (bit_or c_l c_x)
                                                ++ (replicate 20 c_l
                                                    ++ (replicate 4 c_p
                                                        ++ (c_c ∷ replicate 128 c_n))))))))))))))

-- `c + 1`
abbrev pub index : Option ℕ → ℕ
index none = 0
index (some c) = suc c

or_zero : Option ℕ → ℕ
or_zero none = 0
or_zero (some x) = x

-- `tbl[c + 1] & mask`
unfoldable pub masked : ℕ → Option ℕ → ℕ
unfolding or_zero
masked mask c = bit_and (or_zero (get_elem? tbl (index c))) mask

unfoldable pub isalnum : Option ℕ → ℕ
unfolding masked
isalnum c = masked (bit_or (bit_or c_u c_l) c_d) c

unfoldable pub isalpha : Option ℕ → ℕ
unfolding masked
isalpha c = masked (bit_or c_u c_l) c

unfoldable pub iscntrl : Option ℕ → ℕ
unfolding masked
iscntrl c = masked c_c c

unfoldable pub isdigit : Option ℕ → ℕ
unfolding masked
isdigit c = masked c_d c

unfoldable pub isgraph : Option ℕ → ℕ
unfolding masked
isgraph c = masked (bit_or (bit_or (bit_or c_u c_l) c_d) c_p) c

unfoldable pub islower : Option ℕ → ℕ
unfolding masked
islower c = masked c_l c

unfoldable pub isprint : Option ℕ → ℕ
unfolding masked
isprint c = masked (bit_or (bit_or (bit_or (bit_or c_u c_l) c_d) c_p) c_w) c

unfoldable pub ispunct : Option ℕ → ℕ
unfolding masked
ispunct c = masked c_p c

unfoldable pub isspace : Option ℕ → ℕ
unfolding masked
isspace c = masked (bit_or c_s c_w) c

unfoldable pub isupper : Option ℕ → ℕ
unfolding masked
isupper c = masked c_u c

unfoldable pub isxdigit : Option ℕ → ℕ
unfolding masked
isxdigit c = masked (bit_or c_d c_x) c

-- `'a' - 'A'` is 32, and a lower-case letter is above it.
unfoldable pub tolower : Option ℕ → Option ℕ
unfolding isupper
tolower c = if isupper c == 0 then c else map (λ x. x + 32) c

unfoldable pub toupper : Option ℕ → Option ℕ
unfolding islower
toupper c = if islower c == 0 then c else map (λ x. x - 32) c

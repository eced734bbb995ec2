-- ===== src/Libc/Strtol/Laws.antt =====
-- The value that `strtol` gives, against the number that the digits write.
use eotan.Prelude.{ℕ, ◌<◌, ◌≤◌, ◌≡◌, refl, arith, Bool, true, false, some, List}
use eotan.Libc.Strtoul.{
  ulong_max, Number, unchanged, get_num, first, is_some, skip_space, sign, prefix, digits_from,
  negate,
}
use eotan.Libc.Strtoul.Laws.{AddsTo, IsCut, numeral, after_digits, digits_from-IsCut, prefix_base}
use eotan.Libc.Strtol.{long_limit, add_signed, convert_signed, strtol}

add_signed-AddsTo : (max base : ℕ) → max ≤ ulong_max → AddsTo max base (add_signed max base)
unfolding add_signed
add_signed-AddsTo max base m v n h = ground arith

limit_bounds : (minus : Bool) → (0 < long_limit minus) × (long_limit minus ≤ ulong_max)
unfolding long_limit
limit_bounds true = (omega arith, omega arith)
limit_bounds false = (omega arith, omega arith)

pub strtol-IsCut :
    (str r d : List ℕ) (minus : Bool) (base b : ℕ)
    → sign (skip_space str) ≡ (minus, r)
    → prefix base r ≡ some (b, d)
    → is_some (get_num (first d) b) ≡ true
    → (x : Number) × (strtol str base ≡ negate minus x)
      × IsCut (long_limit minus) (numeral b d 0) (after_digits b d) unchanged x
unfolding strtol convert_signed
strtol-IsCut str r d minus base b s p h =
    let max = long_limit minus in
    let (pos, small) = limit_bounds minus in
    (
      digits_from (add_signed max b) max b d 0 unchanged,
      rw (s, p, h) refl,
      digits_from-IsCut b max (prefix_base base b r d p) pos (add_signed max b)
          (add_signed-AddsTo max b small) d 0 (omega arith),
    )

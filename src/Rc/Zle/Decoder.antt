-- ===== src/Rc/Zle/Decoder.antt =====
-- The decoder reads the bits of a run back into its length.
use eotan.Prelude.{
  ℕ, zero, suc, ◌+◌, ◌*◌, ◌/◌, ◌%◌, ◌^◌, ◌<◌, ◌≡◌, ap, ◌∙◌, true, false, Option, some, List, [],
  ◌∷◌, ◌++◌, ◌==◌, ltb, arith, length, Bool-cases, inl, inr,
}
use native.Mathlib.Nat.{pow-suc}
use eotan.Bits.{set_bit}
use eotan.Bits.Laws.{set_bit-eq-add, test_bit_high}
use eotan.Rc.Zle.{Input, bgetc, digits, or_shift, bits_got, read_bits, opened}
use eotan.Rc.Zle.Reader.{got, At, At-opened}

-- What follows the bits of a run: no bit.
abbrev pub EndsRun : List ℕ → Type 0
EndsRun [] = Unit {0}
EndsRun (y ∷ ys) = 1 < y

set_high : (acc e : ℕ) → acc < 2 ^ e → set_bit acc e ≡ acc + 2 ^ e
set_high acc e h = set_bit-eq-add acc e (test_bit_high acc e h)

or_shift_lem : (acc b e : ℕ) → acc < 2 ^ e → b < 2 → or_shift acc b e ≡ acc + b * 2 ^ e
unfolding or_shift
or_shift_lem acc zero e h l = omega arith
or_shift_lem acc (suc zero) e h l = omega (arith, set_high acc e h)
or_shift_lem acc (suc (suc b)) e h l = absurd (omega arith)

bits_end :
    (next : ℕ → ℕ → Input → Option (ℕ × Option ℕ × Input)) (e acc : ℕ) (ys : List ℕ)
    → EndsRun ys
    → acc < 2 ^ e
    → bits_got next e acc (got ys) ≡ some (acc + 2 ^ e, (got ys).0, (got ys).1)
unfolding bits_got
bits_end next e acc [] d h = rw (set_high acc e h)
bits_end next e acc (y ∷ ys) d h = let s : ltb 1 y ≡ true = ground arith in rw (s, set_high acc e h)

acc-lt : (acc p b : ℕ) → acc < p → b < 2 → acc + b * p < p * 2
acc-lt acc p zero h l = omega arith
acc-lt acc p (suc zero) h l = omega arith
acc-lt acc p (suc (suc b)) h l = absurd (omega arith)

-- the low bit of a count is read first
bit_step : (acc p c : ℕ) → acc + c % 2 * p + p * 2 * (c / 2) ≡ acc + p * c
bit_step acc p c = let e : c ≡ 2 * (c / 2) + c % 2 = omega arith in omega (arith, ap (λ x. p * x) e)

bits_more :
    (next : ℕ → ℕ → Input → Option (ℕ × Option ℕ × Input)) (e acc b : ℕ) (i : Input)
    → b < 2
    → bits_got next e acc (some b, i) ≡ next (e + 1) (or_shift acc b e) i
unfolding bits_got
bits_more next e acc b i h = let s : ltb 1 b ≡ false = ground arith in rw s

pow_succ : (e : ℕ) → 2 ^ (e + 1) ≡ 2 ^ e * 2
pow_succ e = ap (λ n. 2 ^ n) (omega arith) ∙ pow-suc 2 e

-- The digits of a count, then something else: the decoder rebuilds the count.
pub read_bits-At :
    (k size e acc c : ℕ) (ys : List ℕ) (i : Input)
    → c < 2 ^ k
    → 0 < c
    → acc < 2 ^ e
    → EndsRun ys
    → length (digits k c ++ ys) < size
    → At (digits k c ++ ys) i
    → read_bits size e acc i ≡ some (acc + 2 ^ e * c, (got ys).0, (got ys).1)
unfolding read_bits digits
read_bits-At zero size e acc c ys i b p h d l a = absurd (omega arith)
read_bits-At (suc k) zero e acc c ys i b p h d l a = absurd (omega arith)
read_bits-At (suc k) (suc size) e acc c ys i b p h d l a = elim (Bool-cases (c == 1)) [
  | inl y ↦
      let one : c ≡ 1 = ground arith in
      let a' : bgetc i ≡ got ys = rw y at a in
      rw (a', bits_end (read_bits size) e acc ys d h, one)
        (ap (λ m. some (m, (got ys).0, (got ys).1)) (omega arith))
  | inr n ↦
      let a' : bgetc i ≡ (some (c % 2), opened (digits k (c / 2) ++ ys)) = rw n at a in
      let l' : length (digits k (c / 2) ++ ys) < size = ground arith in
      let acc' : ℕ = acc + c % 2 * 2 ^ e in
      let h' : acc' < 2 ^ (e + 1) = rw (pow_succ e) (acc-lt acc (2 ^ e) (c % 2) h (omega arith)) in
      let ih =
        read_bits-At k size (e + 1) acc' (c / 2) ys (opened (digits k (c / 2) ++ ys))
          (omega (arith, pow-suc 2 k)) (ground arith) h' d l'
          (At-opened (digits k (c / 2) ++ ys)) in
      rw
        (
          a',
          bits_more (read_bits size) e acc (c % 2) (opened (digits k (c / 2) ++ ys)) (omega arith),
          or_shift_lem acc (c % 2) e h (omega arith),
        )
        (ih ∙ ap (λ m. some (m, (got ys).0, (got ys).1)) (rw (pow_succ e) (bit_step acc (2 ^ e) c)))
]

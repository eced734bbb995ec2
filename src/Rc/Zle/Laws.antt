-- ===== src/Rc/Zle/Laws.antt =====
-- Decoding what was encoded gives the input back.
use eotan.Prelude.{
  ℕ, zero, suc, ◌+◌, ◌/◌, ◌%◌, ◌^◌, ◌≤◌, ◌<◌, ◌≡◌, refl, ap, ◌∙◌, true, false, some, List, [], ◌∷◌,
  ◌++◌, ◌==◌, ltb, arith, length, length-append, replicate, Bool-cases, inl, inr,
}
use eotan.Rc.Zle.{
  Input, bgetc, emit, unless_full, digits, escape, encode, decode_run, decode_escape, decode_got,
  decode_from, decode, opened,
}
use eotan.Rc.Zle.Reader.{At, At-opened, pushed, bungetc-got, At-pushed}
use eotan.Rc.Zle.Encoder.{
  zeros, after, coded, length-after, zeros-after, length-zeros, coded_zero, coded_byte, coded_nil,
  encode-coded,
}
use eotan.Rc.Zle.Decoder.{EndsRun, read_bits-At}

abbrev pub AreBytes : List ℕ → Type 0
AreBytes [] = Unit {0}
AreBytes (c ∷ rest) = (c < 256) × AreBytes rest

AreBytes-after : (xs : List ℕ) → AreBytes xs → AreBytes (after xs)
unfolding after
AreBytes-after [] h = tt
AreBytes-after (c ∷ rest) h = elim (Bool-cases (c == 0)) [
  | inl z ↦ rw z (AreBytes-after rest h.1)
  | inr n ↦ rw n h
]

escape_ends : (c : ℕ) (ys : List ℕ) → (c == 0) ≡ false → EndsRun (escape c ++ ys)
unfolding escape
escape_ends c ys n = elim (Bool-cases (c == 0xfe)) [
  | inl y ↦ rw y (omega arith)
  | inr a ↦ elim (Bool-cases (c == 0xff)) [
    | inl y ↦ rw (a, y) (omega arith)
    | inr b ↦ rw (a, b) (ground arith)
  ]
]

-- No run of zeros is followed by another.
after_ends : (xs : List ℕ) → EndsRun (coded 0 (after xs))
unfolding after
after_ends [] = rw coded_nil tt
after_ends (c ∷ rest) = elim (Bool-cases (c == 0)) [
  | inl z ↦ rw z (after_ends rest)
  | inr n ↦ rw (n, coded_byte c rest n) (escape_ends c (coded 0 rest) n)
]

zeros-le : (xs : List ℕ) → zeros xs ≤ length xs
zeros-le xs = omega (arith, length-zeros xs)

-- One byte that is not 0, in any of its three forms.
decode_byte :
    (size fuel c : ℕ) (ys : List ℕ) (i : Input) (out : List ℕ)
    → c < 256
    → (c == 0) ≡ false
    → At (escape c ++ ys) i
    → decode_from size fuel (opened ys) ≡ some out
    → decode_from size (suc fuel) i ≡ some (c ∷ out)
unfolding escape decode_from decode_got decode_escape emit
decode_byte size fuel c ys i out h n a ih = elim (Bool-cases (c == 0xfe)) [
  | inl y ↦
      let a' : bgetc i ≡ (some 0xff, opened (0 ∷ ys)) = rw y at a in
      let e : c ≡ 0xfe = ground arith in rw (a', At-opened (0 ∷ ys), ih, e)
  | inr p ↦ elim (Bool-cases (c == 0xff)) [
    | inl y ↦
        let a' : bgetc i ≡ (some 0xff, opened (1 ∷ ys)) = rw (p, y) at a in
        let e : c ≡ 0xff = ground arith in rw (a', At-opened (1 ∷ ys), ih, e)
    | inr q ↦
        let a' : bgetc i ≡ (some (c + 1), opened ys) = rw (p, q) at a in
        let s : ltb (c + 1) 2 ≡ false = ground arith in
        let t : (c + 1 == 0xff) ≡ false = ground arith in
        rw (a', s, t, ih) (ap (λ m. some (m ∷ out)) (omega arith))
  ]
]

-- One run of `z + 1` zeros, given by its digits.
module _ (size fuel z : ℕ) (ys : List ℕ) (i : Input) (out : List ℕ) (small : z + 2 < 2 ^ 31)
    (d : EndsRun ys) where
  run_digits : digits 32 (z + 2) ≡ (z + 2) % 2 ∷ digits 31 ((z + 2) / 2)
  unfolding digits
  run_digits = let s : (z + 2 == 1) ≡ false = ground arith in rw s

  decode_zeros :
      length (digits 32 (z + 2) ++ ys) < size
      → At (digits 32 (z + 2) ++ ys) i
      → decode_from size fuel (pushed ys) ≡ some out
      → decode_from size (suc fuel) i ≡ some (replicate (z + 1) 0 ++ out)
  unfolding decode_from decode_got decode_run emit unless_full
  decode_zeros l a ih =
      let tail = digits 31 ((z + 2) / 2) ++ ys in
      let a' : bgetc i ≡ (some ((z + 2) % 2), opened tail) = rw run_digits at a in
      let l' : suc (length tail) < size = rw run_digits at l in
      let s : ltb ((z + 2) % 2) 2 ≡ true = ground arith in
      let r =
        read_bits-At 31 size 1 ((z + 2) % 2) ((z + 2) / 2) ys (opened tail) (omega arith)
          (omega arith) (omega arith) d (omega arith) (At-opened tail) in
      rw (a', s, r, bungetc-got ys, ih) (ap (λ m. some (replicate m 0 ++ out)) (omega arith))

replicate_suc : (n : ℕ) (xs : List ℕ) → replicate (n + 1) 0 ++ xs ≡ 0 ∷ (replicate n 0 ++ xs)
replicate_suc n xs = ap (λ m. replicate m 0 ++ xs) (suc_of n)
  where
    suc_of : (m : ℕ) → m + 1 ≡ suc m
    suc_of m = omega arith

length-escape : (c : ℕ) (ys : List ℕ) → length ys < length (escape c ++ ys)
unfolding escape
length-escape c ys = ground arith

decode_end : (size fuel : ℕ) (i : Input) → At [] i → decode_from size (suc fuel) i ≡ some []
unfolding decode_from decode_got
decode_end size fuel i a = rw a

decode-coded :
    (size fuel : ℕ) (xs : List ℕ) (i : Input)
    → AreBytes xs
    → length xs + 2 ≤ 2 ^ 31
    → length (coded 0 xs) < size
    → length (coded 0 xs) < fuel
    → At (coded 0 xs) i
    → decode_from size fuel i ≡ some xs
decode-coded size zero xs i b s l f a = absurd (omega arith)
decode-coded size (suc fuel) [] i b s l f a = decode_end size fuel i (rw coded_nil at a)
decode-coded size (suc fuel) (c ∷ rest) i b s l f a = elim (Bool-cases (c == 0)) [
  | inl z ↦
      let e : c ≡ 0 = ground arith in
      let ys = coded 0 (after rest) in
      let step : coded 0 (c ∷ rest) ≡ digits 32 (zeros rest + 2) ++ ys = rw e (coded_zero rest) in
      let n =
        run_digits size fuel (zeros rest) ys i [] (omega (arith, zeros-le rest))
          (after_ends rest) in
      let len : length (coded 0 (c ∷ rest))
          ≡ suc (length (digits 31 ((zeros rest + 2) / 2) ++ ys)) =
        rw (step, n) refl in
      let grow = length-append (digits 31 ((zeros rest + 2) / 2)) ys in
      let ih : decode_from size fuel (pushed ys) ≡ some (after rest) =
        decode-coded size fuel (after rest) (pushed ys) (AreBytes-after rest b.1)
          (omega (arith, length-after rest)) (omega (arith, len, grow)) (omega (arith, len, grow))
          (At-pushed ys) in
      decode_zeros size fuel (zeros rest) ys i (after rest) (omega (arith, zeros-le rest))
        (after_ends rest) (rw step at l) (rw step at a) ih
      ∙ ap some (replicate_suc (zeros rest) (after rest) ∙ rw (zeros-after rest, e))
  | inr n ↦
      let step : coded 0 (c ∷ rest) ≡ escape c ++ coded 0 rest = coded_byte c rest n in
      let grow : length (coded 0 rest) < length (coded 0 (c ∷ rest)) =
        rw step (length-escape c (coded 0 rest)) in
      decode_byte size fuel c (coded 0 rest) i rest b.0 n (rw step at a) (
        decode-coded size fuel rest (opened (coded 0 rest)) b.1 (omega arith) (omega (arith, grow))
          (omega (arith, grow)) (At-opened (coded 0 rest)))
]

-- Of every list of bytes of at most 2^31 - 2, the encoder of zle_encode.c writes an encoding, and
-- the decoder of zle_decode.c gives the list back from it; neither gives up or runs out of
-- rounds.
pub decode-encode :
    (xs : List ℕ)
    → AreBytes xs
    → length xs + 2 ≤ 2 ^ 31
    → (bytes : List ℕ) × (encode xs ≡ some bytes) × (decode bytes ≡ some xs)
unfolding decode
decode-encode xs b s = (
  coded 0 xs,
  encode-coded xs,
  decode-coded (suc (length (coded 0 xs))) (suc (length (coded 0 xs))) xs (opened (coded 0 xs)) b s
      (omega arith) (omega arith) (At-opened (coded 0 xs)),
)

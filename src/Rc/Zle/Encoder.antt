-- ===== src/Rc/Zle/Encoder.antt =====
-- The encoder writes the runs and bytes of its input one after the other.
use eotan.Prelude.{
  ℕ, zero, suc, ◌+◌, ◌≤◌, ◌<◌, ◌≡◌, refl, sym, ap, ◌∙◌, false, none, some, List, [], ◌∷◌, ◌++◌,
  ◌==◌, arith, if◌then◌else◌, length, replicate, Bool-cases, inl, inr,
}
use mathlib.Core.List.{append-nil}
use eotan.Rc.Zle.{
  Input, emit, unless_full, digits, count_got, count_zeros, encode_run, escape, encode_got,
  encode_from, encode, opened,
}
use eotan.Rc.Zle.Reader.{got, At, At-opened, pushed, bungetc-got, At-pushed}

-- The leading zeros of a list, and what follows them.
unfoldable pub zeros : List ℕ → ℕ
zeros [] = 0
zeros (c ∷ rest) = let more = zeros rest in if c == 0 then suc more else 0

unfoldable pub after : List ℕ → List ℕ
after [] = []
after (c ∷ rest) = let more = after rest in if c == 0 then more else c ∷ rest

pub length-after : (xs : List ℕ) → length (after xs) ≤ length xs
unfolding after
length-after [] = omega arith
length-after (c ∷ rest) = ground (arith, length-after rest)

pub zeros-after : (xs : List ℕ) → replicate (zeros xs) 0 ++ after xs ≡ xs
unfolding zeros after
zeros-after [] = refl
zeros-after (c ∷ rest) = elim (Bool-cases (c == 0)) [
  | inl z ↦ let e : c ≡ 0 = ground arith in rw e (ap (λ l. 0 ∷ l) (zeros-after rest))
  | inr n ↦ rw n
]

pub length-zeros : (xs : List ℕ) → zeros xs + length (after xs) ≡ length xs
unfolding zeros after
length-zeros [] = refl
length-zeros (c ∷ rest) = ground (arith, length-zeros rest)

flush : ℕ → List ℕ
flush zero = []
flush (suc k) = digits 32 (suc k + 1)

-- The encoding as a recursion on the list, with `n` zeros read before it.
pub coded : ℕ → List ℕ → List ℕ
unfolding flush
coded n [] = flush n
coded n (c ∷ rest) =
    let run = coded (suc n) rest in
    let byte = flush n ++ (escape c ++ coded 0 rest) in if c == 0 then run else byte

-- A run is written when it ends.
coded_run :
    (n : ℕ) (xs : List ℕ)
    → coded (suc n) xs ≡ digits 32 (suc n + zeros xs + 1) ++ coded 0 (after xs)
unfolding coded zeros after
coded_run n [] = (ap (digits 32) (omega arith) ∙ sym (append-nil (digits 32 (suc n + 0 + 1))))
coded_run n (c ∷ rest) = elim (Bool-cases (c == 0)) [
  | inl z ↦
      rw z (coded_run (suc n) rest ∙ ap (λ m. digits 32 m ++ coded 0 (after rest)) (omega arith))
  | inr b ↦ rw b (rw b (ap (λ m. digits 32 m ++ (escape c ++ coded 0 rest)) (omega arith)))
]

pub coded_nil : coded 0 [] ≡ []
unfolding coded
coded_nil = refl

pub coded_zero :
    (rest : List ℕ) → coded 0 (0 ∷ rest) ≡ digits 32 (zeros rest + 2) ++ coded 0 (after rest)
unfolding coded
coded_zero rest = coded_run 0 rest ∙ ap (λ m. digits 32 m ++ coded 0 (after rest)) (omega arith)

pub coded_byte :
    (c : ℕ) (rest : List ℕ) → (c == 0) ≡ false → coded 0 (c ∷ rest) ≡ escape c ++ coded 0 rest
unfolding coded
coded_byte c rest b = rw b

count_zeros-At :
    (size n : ℕ) (xs : List ℕ) (i : Input)
    → length xs < size
    → At xs i
    → count_zeros size n i ≡ some (n + zeros xs, (got (after xs)).0, (got (after xs)).1)
unfolding count_zeros count_got zeros after
count_zeros-At zero n xs i h a = absurd (omega arith)
count_zeros-At (suc size) n [] i h a = rw a (ap (λ m. some (m, none, opened [])) (omega arith))
count_zeros-At (suc size) n (c ∷ rest) i h a = elim (Bool-cases (c == 0)) [
  | inl z ↦
      rw (a, z)
        (count_zeros-At size (n + 1) rest (opened rest) (omega arith) (At-opened rest)
          ∙ ap (λ m. some (m, (got (after rest)).0, (got (after rest)).1)) (omega arith))
  | inr b ↦ rw (a, b) (ap (λ m. some (m, some c, opened rest)) (omega arith))
]

encode_from-At :
    (size fuel : ℕ) (xs : List ℕ) (i : Input)
    → length xs < size
    → length xs < fuel
    → At xs i
    → encode_from size fuel i ≡ some (coded 0 xs)
unfolding encode_from encode_got encode_run emit unless_full
encode_from-At size zero xs i s h a = absurd (omega arith)
encode_from-At size (suc fuel) [] i s h a = rw a (rw coded_nil)
encode_from-At size (suc fuel) (c ∷ rest) i s h a = elim (Bool-cases (c == 0)) [
  | inl z ↦
      let e : c ≡ 0 = ground arith in
      rw
        (
          a,
          z,
          count_zeros-At size 1 rest (opened rest) (omega arith) (At-opened rest),
          bungetc-got (after rest),
          encode_from-At size fuel (after rest) (pushed (after rest))
              (omega (arith, length-after rest)) (omega (arith, length-after rest))
              (At-pushed (after rest)),
          e,
          coded_zero rest,
        )
        (ap (λ m. some (digits 32 m ++ coded 0 (after rest))) (omega arith))
  | inr b ↦ rw (
    a,
    b,
    encode_from-At size fuel rest (opened rest) (omega arith) (omega arith) (At-opened rest),
    coded_byte c rest b,
  )
]

-- The encoder of zle_encode.c ends on every input and writes its specification.
pub encode-coded : (xs : List ℕ) → encode xs ≡ some (coded 0 xs)
unfolding encode
encode-coded xs =
    encode_from-At (suc (length xs)) (suc (length xs)) xs (opened xs) (omega arith) (omega arith)
      (At-opened xs)

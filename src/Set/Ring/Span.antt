-- ===== src/Set/Ring/Span.antt =====
-- Stretches of memory as lists.
use Prim.Native.Nat.{min}
use eotan.Prelude.{
  ℕ, zero, suc, ◌+◌, ◌-◌, ◌≡◌, refl, ap, List, [], ◌∷◌, ◌++◌, arith, length, take, drop,
}
use eotan.Set.Ring.{span}

pub length-span : (b : ℕ → ℕ) (i n : ℕ) → length (span b i n) ≡ n
unfolding span
length-span b i zero = refl
length-span b i (suc n) = ap suc (length-span b (suc i) n)

-- A part of a stretch, and what is behind it.
pub take-span : (b : ℕ → ℕ) (i n k : ℕ) → take k (span b i n) ≡ span b i (min n k)
unfolding span
take-span b i zero zero = refl
take-span b i zero (suc k) = let e : min 0 (suc k) ≡ 0 = omega arith in rw e refl
take-span b i (suc n) zero = let e : min (suc n) 0 ≡ 0 = omega arith in rw e refl
take-span b i (suc n) (suc k) =
    let e : min (suc n) (suc k) ≡ suc (min n k) = omega arith in
    rw e (ap (λ z. b i ∷ z) (take-span b (suc i) n k))

pub drop-span : (b : ℕ → ℕ) (i n k : ℕ) → drop k (span b i n) ≡ span b (i + min n k) (n - min n k)
unfolding span
drop-span b i zero zero = refl
drop-span b i zero (suc k) = let e : 0 - min 0 (suc k) ≡ 0 = omega arith in rw e refl
drop-span b i (suc n) zero =
    let e : min (suc n) 0 ≡ 0 = omega arith in
    let f : i + 0 ≡ i = omega arith in let g : suc n - 0 ≡ suc n = omega arith in rw (e, f, g) refl
drop-span b i (suc n) (suc k) =
    let e : suc i + min n k ≡ i + min (suc n) (suc k) = omega arith in
    let f : n - min n k ≡ suc n - min (suc n) (suc k) = omega arith in
    rw (← e, ← f) (drop-span b (suc i) n k)

pub take-append :
    (k : ℕ) (xs ys : List ℕ) → take k (xs ++ ys) ≡ take k xs ++ take (k - length xs) ys
take-append zero [] ys = refl
take-append zero (x ∷ xs) ys = let e : 0 - suc (length xs) ≡ 0 = omega arith in rw e refl
take-append (suc k) [] ys = let e : suc k - 0 ≡ suc k = omega arith in rw e refl
take-append (suc k) (x ∷ xs) ys =
    let e : suc k - suc (length xs) ≡ k - length xs = omega arith in
    rw e (ap (λ z. x ∷ z) (take-append k xs ys))

pub drop-append :
    (k : ℕ) (xs ys : List ℕ) → drop k (xs ++ ys) ≡ drop k xs ++ drop (k - length xs) ys
drop-append zero [] ys = refl
drop-append zero (x ∷ xs) ys = let e : 0 - suc (length xs) ≡ 0 = omega arith in rw e refl
drop-append (suc k) [] ys = let e : suc k - 0 ≡ suc k = omega arith in rw e refl
drop-append (suc k) (x ∷ xs) ys =
    let e : suc k - suc (length xs) ≡ k - length xs = omega arith in rw e (drop-append k xs ys)

pub take-nil : (k : ℕ) → take {A = ℕ} k [] ≡ []
take-nil zero = refl
take-nil (suc k) = refl

pub drop-nil : (k : ℕ) → drop {A = ℕ} k [] ≡ []
drop-nil zero = refl
drop-nil (suc k) = refl

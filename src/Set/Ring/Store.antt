-- ===== src/Set/Ring/Store.antt =====
-- What is stored in a stretch of memory, and what stays around it.
use eotan.Prelude.{
  ℕ, zero, suc, ◌+◌, ◌-◌, ◌<◌, ◌≤◌, ◌≡◌, refl, ap, ◌∙◌, true, List, [], ◌∷◌, ◌++◌, arith, ◌==◌,
  length, take, drop,
}
use eotan.Set.Ring.{span, store}

span-sum : (b : ℕ → ℕ) (i m n : ℕ) → span b i (m + n) ≡ span b i m ++ span b (i + m) n
unfolding span
span-sum b i zero n =
    let e : 0 + n ≡ n = omega arith in let f : i + 0 ≡ i = omega arith in rw (e, f) refl
span-sum b i (suc m) n =
    let e : suc m + n ≡ suc (m + n) = omega arith in
    let f : i + suc m ≡ suc i + m = omega arith in
    rw (e, f) (ap (λ z. b i ∷ z) (span-sum b (suc i) m n))

store-before : (b : ℕ → ℕ) (i n j : ℕ) (xs : List ℕ) → j < i → store b i n xs j ≡ b j
unfolding store
store-before b i zero j xs h = refl
store-before b i (suc n) j [] h = refl
store-before b i (suc n) j (x ∷ xs) h = ground (arith, store-before b (suc i) n j xs)

store-beyond : (b : ℕ → ℕ) (i n j : ℕ) (xs : List ℕ) → i + n ≤ j → store b i n xs j ≡ b j
unfolding store
store-beyond b i zero j xs h = refl
store-beyond b i (suc n) j [] h = refl
store-beyond b i (suc n) j (x ∷ xs) h = ground (arith, store-beyond b (suc i) n j xs)

-- Memory that is the same on a stretch.
span-same :
    (b c : ℕ → ℕ) (i n : ℕ) → ((j : ℕ) → i ≤ j → j < i + n → b j ≡ c j) → span b i n ≡ span c i n
unfolding span
span-same b c i zero h = refl
span-same b c i (suc n) h =
    rw (h i (omega arith) (omega arith))
      (ap (λ z. c i ∷ z) (span-same b c (suc i) n (λ j p q. h j (omega arith) (omega arith))))

span-store :
    (b : ℕ → ℕ) (i n : ℕ) (xs : List ℕ) → n ≤ length xs → span (store b i n xs) i n ≡ take n xs
unfolding span store
span-store b i zero xs h = refl
span-store b i (suc n) [] h = absurd (omega arith)
span-store b i (suc n) (x ∷ xs) h =
    let e : (i == i) ≡ true = ground arith in
    let s : span (store b i (suc n) (x ∷ xs)) (suc i) n ≡ span (store b (suc i) n xs) (suc i) n =
      span-same (store b i (suc n) (x ∷ xs)) (store b (suc i) n xs) (suc i) n
        (λ j p q. ground arith) in
    rw e (ap (λ z. x ∷ z) (s ∙ span-store b (suc i) n xs (omega arith)))

-- What is stored behind a stretch prolongs it.
pub span-longer :
    (b : ℕ → ℕ) (i w n : ℕ) (xs : List ℕ)
    → n ≤ length xs
    → i ≤ w
    → span (store b w n xs) i (w + n - i) ≡ span b i (w - i) ++ take n xs
span-longer b i w n xs h l =
    let e : w + n - i ≡ w - i + n = omega arith in
    let f : i + (w - i) ≡ w = omega arith in
    rw (e, span-sum (store b w n xs) i (w - i) n, f, span-store b w n xs h)
      (ap (λ z. z ++ take n xs)
        (span-same (store b w n xs) b i (w - i) (λ j p q. store-before b w n j xs (omega arith))))

-- A stretch behind what is stored stays.
pub span-behind :
    (b : ℕ → ℕ) (w n i m : ℕ) (xs : List ℕ) → w + n ≤ i → span (store b w n xs) i m ≡ span b i m
span-behind b w n i m xs h =
    span-same (store b w n xs) b i m (λ j p q. store-beyond b w n j xs (omega arith))

pub take-sum : (m n : ℕ) (xs : List ℕ) → take (m + n) xs ≡ take m xs ++ take n (drop m xs)
take-sum zero n xs = let e : 0 + n ≡ n = omega arith in rw e refl
take-sum (suc m) zero [] = let e : suc m + 0 ≡ suc m = omega arith in rw e refl
take-sum (suc m) (suc n) [] = let e : suc m + suc n ≡ suc (m + suc n) = omega arith in rw e refl
take-sum (suc m) n (x ∷ xs) =
    let e : suc m + n ≡ suc (m + n) = omega arith in rw e (ap (λ z. x ∷ z) (take-sum m n xs))

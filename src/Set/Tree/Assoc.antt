-- ===== src/Set/Tree/Assoc.antt =====
-- Association lists in the order of their keys: what a tree stands for.
use eotan.Prelude.{
  ℕ, ◌+◌, ◌<◌, ◌≡◌, refl, false, Option, none, some, List, [], ◌∷◌, ◌++◌, arith, ◌==◌, ltb,
  if◌then◌else◌, length,
}

module _ {ℓ} {V : Type ℓ} where
  unfoldable pub lookup : ℕ → List (ℕ × V) → Option V
  lookup q [] = none
  lookup q ((k, v) ∷ m) = if q == k then some v else lookup q m

  unfoldable pub insert : ℕ → V → List (ℕ × V) → List (ℕ × V)
  insert q x [] = (q, x) ∷ []
  insert q x ((k, v) ∷ m) = if ltb q k then (q, x) ∷ ((k, v) ∷ m) else (k, v) ∷ insert q x m

  unfoldable pub delete : ℕ → List (ℕ × V) → List (ℕ × V)
  delete q [] = []
  delete q ((k, v) ∷ m) = if q == k then m else (k, v) ∷ delete q m

  -- every key is below `k`, or above it
  abbrev pub Below : ℕ → List (ℕ × V) → Type 0
  Below k [] = Unit {0}
  Below k ((j, v) ∷ m) = (j < k) × Below k m

  abbrev pub Above : ℕ → List (ℕ × V) → Type 0
  Above k [] = Unit {0}
  Above k ((j, v) ∷ m) = (k < j) × Above k m

  abbrev pub IsSorted : List (ℕ × V) → Type 0
  IsSorted [] = Unit {0}
  IsSorted ((k, v) ∷ m) = Above k m × IsSorted m

  Above-trans : (j k : ℕ) (m : List (ℕ × V)) → j < k → Above k m → Above j m
  Above-trans j k [] l h = tt
  Above-trans j k ((i, v) ∷ m) l h = (omega arith, Above-trans j k m l h.1)

  pub Above-middle :
      (j k : ℕ) (v : V) (xs ys : List (ℕ × V))
      → Above j (xs ++ ((k, v) ∷ ys))
      → (Above j xs) × (j < k) × (Above j ys)
  Above-middle j k v [] ys h = (tt, h.0, h.1)
  Above-middle j k v ((i, w) ∷ xs) ys h =
      let (a, b, c) = Above-middle j k v xs ys h.1 in ((h.0, a), b, c)

  pub Above-join :
      (j k : ℕ) (v : V) (xs ys : List (ℕ × V))
      → Above j xs
      → j < k
      → Above j ys
      → Above j (xs ++ ((k, v) ∷ ys))
  Above-join j k v [] ys a b c = (b, c)
  Above-join j k v ((i, w) ∷ xs) ys a b c = (a.0, Above-join j k v xs ys a.1 b c)

  -- a sorted list, taken apart at one of its entries
  pub Sorted-middle :
      (k : ℕ) (v : V) (xs ys : List (ℕ × V))
      → IsSorted (xs ++ ((k, v) ∷ ys))
      → IsSorted xs × Below k xs × IsSorted ys × Above k ys
  Sorted-middle k v [] ys h = (tt, tt, h.1, h.0)
  Sorted-middle k v ((j, w) ∷ xs) ys h =
      let (s, b, t, a) = Sorted-middle k v xs ys h.1 in
      let (above, less, beyond) = Above-middle j k v xs ys h.0 in ((above, s), (less, b), t, a)

  pub lookup-Below :
      (q k : ℕ) (xs : List (ℕ × V)) → Below k xs → (ltb q k ≡ false) → lookup q xs ≡ none
  unfolding lookup
  lookup-Below q k [] b l = refl
  lookup-Below q k ((j, v) ∷ xs) b l = ground (arith, lookup-Below q k xs b.1 l)

  pub lookup-Above :
      (q k : ℕ) (xs : List (ℕ × V)) → Above k xs → (ltb k q ≡ false) → lookup q xs ≡ none
  unfolding lookup
  lookup-Above q k [] b l = refl
  lookup-Above q k ((j, v) ∷ xs) b l = ground (arith, lookup-Above q k xs b.1 l)

  pub delete-Above :
      (q k : ℕ) (xs : List (ℕ × V)) → Above k xs → (ltb k q ≡ false) → delete q xs ≡ xs
  unfolding delete
  delete-Above q k [] b l = refl
  delete-Above q k ((j, v) ∷ xs) b l = ground (arith, delete-Above q k xs b.1 l)

  -- What an operation does to a list, by the entry that it is compared with.
  module _ (q k : ℕ) (v : V) (ys : List (ℕ × V)) where
    pub lookup-middle :
        (xs : List (ℕ × V))
        → Below k xs
        → Above k ys
        → lookup q (xs ++ ((k, v) ∷ ys))
          ≡ (if q == k then some v else if ltb q k then lookup q xs else lookup q ys)
    unfolding lookup
    lookup-middle [] b a = ground (arith, lookup-Above q k ys a)
    lookup-middle ((j, w) ∷ xs) b a =
        ground (arith, lookup-middle xs b.1 a, lookup-Below q k xs b.1)

    pub insert-middle :
        (x : V) (xs : List (ℕ × V))
        → Below k xs
        → (q == k) ≡ false
        → insert q x (xs ++ ((k, v) ∷ ys))
          ≡ (if ltb q k then insert q x xs ++ ((k, v) ∷ ys) else xs ++ ((k, v) ∷ insert q x ys))
    unfolding insert
    insert-middle x [] b n = ground arith
    insert-middle x ((j, w) ∷ xs) b n = ground (arith, insert-middle x xs b.1 n)

    pub delete-middle :
        (xs : List (ℕ × V))
        → Below k xs
        → Above k ys
        → delete q (xs ++ ((k, v) ∷ ys)) ≡ (
            if q == k
            then xs ++ ys
            else if ltb q k
            then delete q xs ++ ((k, v) ∷ ys)
            else xs ++ ((k, v) ∷ delete q ys))
    unfolding delete
    delete-middle [] b a = ground (arith, delete-Above q k ys a)
    delete-middle ((j, w) ∷ xs) b a = ground (arith, delete-middle xs b.1 a)

  pub lookup-insert :
      (q j : ℕ) (x : V) (m : List (ℕ × V))
      → lookup j m ≡ none
      → lookup q (insert j x m) ≡ (if q == j then some x else lookup q m)
  unfolding lookup insert
  lookup-insert q j x [] h = refl
  lookup-insert q j x ((k, v) ∷ m) h = ground (arith, lookup-insert q j x m)

  pub lookup-delete :
      (q j : ℕ) (m : List (ℕ × V))
      → IsSorted m
      → lookup q (delete j m) ≡ (if q == j then none else lookup q m)
  unfolding lookup delete
  lookup-delete q j [] h = ground arith
  lookup-delete q j ((k, v) ∷ m) h = ground (arith, lookup-delete q j m h.1, lookup-Above q k m h.0)

  Above-insert : (j q : ℕ) (x : V) (m : List (ℕ × V)) → Above j m → j < q → Above j (insert q x m)
  unfolding insert
  Above-insert j q x [] h l = (l, tt)
  Above-insert j q x ((k, v) ∷ m) h l = ground (arith, Above-insert j q x m h.1 l)

  pub insert-IsSorted :
      (q : ℕ) (x : V) (m : List (ℕ × V)) → IsSorted m → lookup q m ≡ none → IsSorted (insert q x m)
  unfolding insert lookup
  insert-IsSorted q x [] s n = (tt, tt)
  insert-IsSorted q x ((k, v) ∷ m) s n =
      ground (arith, insert-IsSorted q x m s.1, Above-insert k q x m s.0, Above-trans q k m)

  Above-delete : (j q : ℕ) (m : List (ℕ × V)) → Above j m → Above j (delete q m)
  unfolding delete
  Above-delete j q [] h = tt
  Above-delete j q ((k, v) ∷ m) h = ground (arith, Above-delete j q m h.1)

  pub delete-IsSorted : (q : ℕ) (m : List (ℕ × V)) → IsSorted m → IsSorted (delete q m)
  unfolding delete
  delete-IsSorted q [] s = tt
  delete-IsSorted q ((k, v) ∷ m) s = ground (arith, delete-IsSorted q m s.1, Above-delete k q m s.0)

  pub length-insert : (q : ℕ) (x : V) (m : List (ℕ × V)) → length (insert q x m) ≡ length m + 1
  unfolding insert
  length-insert q x [] = omega arith
  length-insert q x ((k, v) ∷ m) = ground (arith, length-insert q x m)

  -- the number of entries that a lookup finds
  abbrev pub found : Option V → ℕ
  found none = 0
  found (some v) = 1

  pub length-delete :
      (q : ℕ) (m : List (ℕ × V)) → length (delete q m) + found (lookup q m) ≡ length m
  unfolding delete lookup
  length-delete q [] = omega arith
  length-delete q ((k, v) ∷ m) = ground (arith, length-delete q m)

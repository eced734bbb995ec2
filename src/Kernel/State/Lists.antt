-- ===== src/Kernel/State/Lists.antt =====
-- Queues of keys: membership, and taking a key out.
use eotan.Prelude.{
  ℕ, ◌≡◌, refl, Bool, true, false, List, [], ◌∷◌, ◌++◌, arith, ◌==◌, ◌||◌, if◌then◌else◌,
}

unfoldable pub elem : ℕ → List ℕ → Bool
elem a [] = false
elem a (x ∷ xs) = x == a || elem a xs

-- `list_remove` of the entry of `a`.
unfoldable pub remove : ℕ → List ℕ → List ℕ
remove a [] = []
remove a (x ∷ xs) = let rest = remove a xs in if x == a then rest else x ∷ rest

pub elem-append : (a b : ℕ) (xs : List ℕ) → elem a (xs ++ b ∷ []) ≡ (elem a xs || b == a)
unfolding elem
elem-append a b [] = ground arith
elem-append a b (x ∷ xs) = ground (arith, elem-append a b xs)

pub elem-remove :
    (a b : ℕ) (xs : List ℕ) → elem a (remove b xs) ≡ (if b == a then false else elem a xs)
unfolding elem remove
elem-remove a b [] = ground arith
elem-remove a b (x ∷ xs) = ground (arith, elem-remove a b xs)

pub elem_head : (a : ℕ) (xs : List ℕ) → elem a (a ∷ xs) ≡ true
unfolding elem
elem_head a xs = ground arith

-- No key stands in the queue twice.
unfoldable pub distinct : List ℕ → Bool
unfolding elem
distinct [] = true
distinct (x ∷ xs) = let rest = distinct xs in if elem x xs then false else rest

pub distinct-remove : (a : ℕ) (xs : List ℕ) → distinct xs ≡ true → distinct (remove a xs) ≡ true
unfolding distinct remove elem
distinct-remove a [] d = refl
distinct-remove a (x ∷ xs) d = ground (arith, distinct-remove a xs, elem-remove x a xs)

-- ===== src/Set/Links/Chain.antt =====
-- The entries that the links lead through.
use eotan.Prelude.{
  ℕ, ◌≡◌, refl, ◌∙◌, true, false, List, [], ◌∷◌, arith, ◌==◌, ◌||◌, Bool-cases, inl, inr,
}
use eotan.Kernel.State.Lists.{elem, remove}
use eotan.Set.Links.{Links}

-- From `a` the links lead through just `xs` to `g`, and back.
abbrev pub Leads : Links → ℕ → List ℕ → ℕ → Type 0
Leads l a [] g = (l.next a ≡ g) × (l.prev g ≡ a)
Leads l a (x ∷ xs) g = (l.next a ≡ x) × (l.prev x ≡ a) × Leads l x xs g

-- The links that matter are as before.
pub same_links :
    (l l' : Links) (a : ℕ) (xs : List ℕ) (g : ℕ)
    → ((x : ℕ) → (a == x || elem x xs) ≡ true → l'.next x ≡ l.next x)
    → ((x : ℕ) → (g == x || elem x xs) ≡ true → l'.prev x ≡ l.prev x)
    → Leads l a xs g
    → Leads l' a xs g
unfolding elem
same_links l l' a [] g n p (h, k) = (n a (ground arith) ∙ h, p g (ground arith) ∙ k)
same_links l l' a (x ∷ xs) g n p (h, k, r) = (
  n a (ground arith) ∙ h,
  p x (ground arith) ∙ k,
  same_links l l' x xs g (λ y e. n y (ground (arith, e))) (λ y e. p y (ground (arith, e))) r,
)

pub last_in :
    (l : Links) (a : ℕ) (xs : List ℕ) (g : ℕ)
    → Leads l a xs g
    → (a == l.prev g || elem (l.prev g) xs) ≡ true
unfolding elem
last_in l a [] g (h, k) = ground (arith, k)
last_in l a (x ∷ xs) g (h, k, r) = ground (arith, last_in l x xs g r)

pub remove_absent : (e : ℕ) (xs : List ℕ) → elem e xs ≡ false → remove e xs ≡ xs
unfolding elem remove
remove_absent e [] h = refl
remove_absent e (x ∷ xs) h = ground (arith, h, remove_absent e xs)

-- The neighbours of an entry
pub prev_in :
    (l : Links) (a : ℕ) (xs : List ℕ) (g e : ℕ)
    → Leads l a xs g
    → elem e xs ≡ true
    → (a == l.prev e || elem (l.prev e) xs) ≡ true
unfolding elem
prev_in l a [] g e r m = ground (arith, m)
prev_in l a (x ∷ xs) g e (h, k, r) m = elim (Bool-cases (x == e)) [
  | inl s ↦ let same : x ≡ e = ground (arith, s) in rw (← same) (ground (arith, k))
  | inr s ↦ let i = prev_in l x xs g e r (ground (arith, m, s)) in ground (arith, i)
]

pub next_in :
    (l : Links) (a : ℕ) (xs : List ℕ) (g e : ℕ)
    → Leads l a xs g
    → (a == e || elem e xs) ≡ true
    → (g == l.next e || elem (l.next e) xs) ≡ true
unfolding elem
next_in l a [] g e (h, k) m = ground (arith, h, m)
next_in l a (x ∷ xs) g e (h, k, r) m = elim (Bool-cases (a == e)) [
  | inl s ↦ let same : a ≡ e = ground (arith, s) in rw (← same) (ground (arith, h))
  | inr s ↦ let i = next_in l x xs g e r (ground (arith, m, s)) in ground (arith, i)
]

-- ===== src/Str/Place.antt =====
-- Where a key stands in a string, as a splitting of the string.
use eotan.Prelude.{
  ℕ, zero, suc, ◌+◌, ◌≤◌, ◌≡◌, refl, sym, ap, ◌∙◌, true, List, [], ◌∷◌, ◌++◌, arith, length,
}
use eotan.Str.{byte_at, strlen, stands}

pub strlen-length : (s : List ℕ) → strlen s ≡ length s
unfolding strlen
strlen-length [] = refl
strlen-length (x ∷ s) = omega (arith, strlen-length s)

strlen-append : (a b : List ℕ) → strlen (a ++ b) ≡ strlen a + strlen b
unfolding strlen
strlen-append [] b = omega arith
strlen-append (x ∷ a) b = omega (arith, strlen-append a b)

stands_tail :
    (x : ℕ) (s : List ℕ) (i : ℕ) (key : List ℕ) → stands (x ∷ s) (suc i) key ≡ stands s i key
unfolding stands byte_at
stands_tail x s i [] = refl
stands_tail x s i (k ∷ key) =
    let e : suc i + 1 ≡ suc (i + 1) = omega arith in rw (e, stands_tail x s (i + 1) key) refl

stands_prefix : (key after : List ℕ) → stands (key ++ after) 0 key ≡ true
unfolding stands byte_at
stands_prefix [] after = refl
stands_prefix (k ∷ key) after =
    rw (stands_tail k (key ++ after) 0 key, stands_prefix key after) (ground arith)

stands_split :
    (before key after : List ℕ) → stands (before ++ (key ++ after)) (length before) key ≡ true
stands_split [] key after = stands_prefix key after
stands_split (x ∷ before) key after =
    stands_tail x (before ++ (key ++ after)) (length before) key ∙ stands_split before key after

pub stands_in :
    (before key after s : List ℕ)
    → s ≡ before ++ (key ++ after)
    → (stands s (length before) key ≡ true) × (length before + strlen key ≤ strlen s)
stands_in before key after s e = rw e (
  stands_split before key after,
  omega (arith, strlen-append before (key ++ after), strlen-append key after, strlen-length before),
)

split_prefix :
    (s key : List ℕ)
    → stands s 0 key ≡ true
    → strlen key ≤ strlen s
    → (after : List ℕ) × (s ≡ key ++ after)
unfolding stands strlen byte_at
split_prefix s [] h l = (s, refl)
split_prefix [] (k ∷ key) h l = let n : ⊥ = omega (arith, l) in elim n [ ]
split_prefix (x ∷ s) (k ∷ key) h l =
    let same : x ≡ k = ground (arith, h) in
    let rest : stands (x ∷ s) 1 key ≡ true = ground (arith, h) in
    let (after, e) = split_prefix s key (sym (stands_tail x s 0 key) ∙ rest) (omega (arith, l)) in
    (after, rw (same, ← e) refl)

pub split_at :
    (s : List ℕ) (i : ℕ) (key : List ℕ)
    → stands s i key ≡ true
    → i + strlen key ≤ strlen s
    → (before : List ℕ) × (after : List ℕ) × (s ≡ before ++ (key ++ after)) × (length before ≡ i)
unfolding strlen
split_at s zero key h l =
    let (after, e) = split_prefix s key h (omega (arith, l)) in ([], after, e, refl)
split_at [] (suc i) key h l = let n : ⊥ = omega (arith, l) in elim n [ ]
split_at (x ∷ s) (suc i) key h l =
    let (before, after, e, n) =
      split_at s i key (sym (stands_tail x s i key) ∙ h) (omega (arith, l)) in
    (x ∷ before, after, ap (λ t. x ∷ t) e, omega (arith, n))

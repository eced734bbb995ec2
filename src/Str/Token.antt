-- ===== src/Str/Token.antt =====
-- The tokens of a string.
use eotan.Prelude.{
  ℕ, ◌+◌, ◌<◌, ◌≡◌, ◌⊎◌, refl, ap, ◌∙◌, Bool, true, false, Option, none, some, List, [], ◌∷◌, ◌++◌,
  arith, if◌then◌else◌, Bool-cases, inl, inr,
}
use eotan.Str.{has, skip_sep, cut, strtok_r, strlen, strspn, strcspn}

-- Whether every byte is a separator, and whether none is.
unfoldable pub only : List ℕ → List ℕ → Bool
unfolding has
only sep [] = true
only sep (x ∷ s) = let rest = only sep s in if has sep x then rest else false

unfoldable pub without : List ℕ → List ℕ → Bool
unfolding has
without sep [] = true
without sep (x ∷ s) = let rest = without sep s in if has sep x then false else rest

-- What stands behind a token: nothing, or a separator and the rest.
abbrev pub Behind : List ℕ → List ℕ → List ℕ → Type 0
Behind sep tail rest =
    ((tail ≡ []) × (rest ≡ [])) ⊎ ((c : ℕ) × (tail ≡ c ∷ rest) × (has sep c ≡ true))

abbrev pub Token : List ℕ → List ℕ → Option (List ℕ) → List ℕ → Type 0
Token sep s none rest = (only sep s ≡ true) × (rest ≡ [])
Token sep s (some token) rest =
    (lead : List ℕ) × (tail : List ℕ) × (s ≡ lead ++ (token ++ tail))
    × (only sep lead ≡ true)
    × (strlen lead ≡ strspn s sep)
    × (without sep token ≡ true)
    × (strlen token ≡ strcspn (token ++ tail) sep)
    × (0 < strlen token)
    × Behind sep tail rest

skip_sep_lem :
    (sep s : List ℕ)
    → (lead : List ℕ) × (s ≡ lead ++ skip_sep sep s)
      × (only sep lead ≡ true)
      × (strlen lead ≡ strspn s sep)
unfolding skip_sep only strlen strspn
skip_sep_lem sep [] = ([], refl, refl, refl)
skip_sep_lem sep (x ∷ s) = elim (Bool-cases (has sep x)) [
  | inl h ↦
      let (lead, e, o, l) = skip_sep_lem sep s in
      (x ∷ lead, rw h (ap (λ t. x ∷ t) e), rw h o, rw h (ap (λ n. n + 1) l))
  | inr h ↦ ([], rw h refl, refl, rw h refl)
]

skip_sep-only : (sep s : List ℕ) → skip_sep sep s ≡ [] → only sep s ≡ true
unfolding skip_sep only
skip_sep-only sep [] e = refl
skip_sep-only sep (x ∷ s) e = elim (Bool-cases (has sep x)) [
  | inl h ↦ rw h (skip_sep-only sep s (rw h at e))
  | inr h ↦ let k = rw h at e in cc
]

skip_sep_stops : (sep s : List ℕ) (x : ℕ) (t : List ℕ) → skip_sep sep s ≡ x ∷ t → has sep x ≡ false
unfolding skip_sep
skip_sep_stops sep [] x t e = cc
skip_sep_stops sep (y ∷ s) x t e = elim (Bool-cases (has sep y)) [
  | inl h ↦ skip_sep_stops sep s x t (rw h at e)
  | inr h ↦ let k = rw h at e in let same : y ≡ x = cc in rw (← same) h
]

cut_lem :
    (sep s : List ℕ)
    → (tail : List ℕ) × (s ≡ (cut sep s).0 ++ tail)
      × (without sep (cut sep s).0 ≡ true)
      × (strlen (cut sep s).0 ≡ strcspn s sep)
      × Behind sep tail (cut sep s).1
unfolding cut without strlen strcspn
cut_lem sep [] = ([], refl, refl, refl, inl (refl, refl))
cut_lem sep (x ∷ s) = elim (Bool-cases (has sep x)) [
  | inl h ↦ rw h (x ∷ s, refl, refl, refl, inr (x, refl, h))
  | inr h ↦
      let (tail, e, w, l, b) = cut_lem sep s in
      rw h (tail, ap (λ t. x ∷ t) e, rw h w, ap (λ n. n + 1) l, b)
]

cut_some : (sep : List ℕ) (x : ℕ) (s : List ℕ) → has sep x ≡ false → 0 < strlen (cut sep (x ∷ s)).0
unfolding cut strlen
cut_some sep x s h = rw h (omega arith)

-- What the two loops leave, by what the first one stops at
tokens :
    (sep s start : List ℕ)
    → skip_sep sep s ≡ start
    → Token sep s
        (elim start as (λ x. Option (List ℕ) × List ℕ) [
          | [] ↦ (none, [])
          | ◌∷◌ x xs ↦ (some (cut sep start).0, (cut sep start).1)
        ]).0
        (elim start as (λ x. Option (List ℕ) × List ℕ) [
          | [] ↦ (none, [])
          | ◌∷◌ x xs ↦ (some (cut sep start).0, (cut sep start).1)
        ]).1
tokens sep s [] e = (skip_sep-only sep s e, refl)
tokens sep s (x ∷ t) e =
    let (lead, p, o, m) = skip_sep_lem sep s in
    let (tail, q, w, l, b) = cut_lem sep (x ∷ t) in
    (
      lead,
      tail,
      p ∙ ap (λ u. lead ++ u) (e ∙ q),
      o,
      m,
      w,
      l ∙ ap (λ u. strcspn u sep) q,
      cut_some sep x t (skip_sep_stops sep s x t e),
      b,
    )

-- `strtok_r` gives none just for a string of separators only, with nothing left; otherwise the
-- string is separators, as many as `strspn` counts, then the token, which is not empty, has no
-- separator and is as long as `strcspn` counts, and then nothing or one separator, behind which
-- `state` points.
pub strtok_r-Token : (sep s : List ℕ) → Token sep s (strtok_r sep s).0 (strtok_r sep s).1
unfolding strtok_r
strtok_r-Token sep s = tokens sep s (skip_sep sep s) refl

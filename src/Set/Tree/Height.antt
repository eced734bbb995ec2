-- ===== src/Set/Tree/Height.antt =====
-- How deep the recursions of the tree go, and in which order its nodes are met.
use native.Mathlib.Nat.{pow-le-pow_right, two-pow-succ}
use eotan.Prelude.{
  ℕ, suc, ◌+◌, ◌-◌, length-append, ◌*◌, ◌^◌, ◌≤◌, ◌<◌, ◌≡◌, refl, sym, ap, ◌∙◌, Bool, true, false,
  Option, none, some, List, [], ◌∷◌, ◌++◌, arith, ltb, if◌then◌else◌, length, Bool-cases, inl, inr,
  test_eq, test_ne, ◌==◌, ◌≢◌,
}
use eotan.Set.Tree.{Node, leaf, node, level, right, node_first, traverse}
use eotan.Set.Tree.Entries.{entries}
use eotan.Set.Tree.Balance.{IsBalanced}

abbrev higher : ℕ → ℕ → ℕ
higher a b = if ltb a b then b else a

higher_le : (a b c : ℕ) → a ≤ c → b ≤ c → higher a b ≤ c
higher_le a b c h g = ground arith

module _ {ℓ} {V : Type ℓ} where
  -- The nodes on the longest way down.
  unfoldable pub height : Node V → ℕ
  height leaf = 0
  height (node n l k v r) = suc (higher (height l) (height r))

  pub height-level :
      (t : Node V)
      → IsBalanced t
      → (height t ≤ 2 * level t) × (level (right t) < level t → height t + 1 ≤ 2 * level t)
  unfolding height IsBalanced level right
  height-level leaf h = (omega arith, λ l. omega arith)
  height-level (node n l k v r) h =
      let (dl, sl) = height-level l h.4 in
      let (dr, sr) = height-level r h.5 in
      elim (Bool-cases (level r == n)) [
        | inl y ↦
            let e : level r ≡ n = test_eq y in
            let d : height r + 1 ≤ 2 * level r = sr (omega arith) in
            let b : higher (height l) (height r) ≤ 2 * n - 1 =
              higher_le (height l) (height r) (2 * n - 1) (omega arith) (omega arith) in
            (omega arith, λ z. omega arith)
        | inr y ↦
            let e : level r ≢ n = test_ne y in
            let d : higher (height l) (height r) ≤ 2 * n - 2 =
              higher_le (height l) (height r) (2 * n - 2) (omega arith) (omega arith) in
            (omega arith, λ z. omega arith)
      ]

  pub level-length : (t : Node V) → IsBalanced t → 2 ^ level t ≤ length (entries t) + 1
  unfolding IsBalanced level entries
  level-length leaf h = omega arith
  level-length (node n l k v r) h =
      let a : 2 ^ level l ≤ length (entries l) + 1 = level-length l h.4 in
      let b : 2 ^ level r ≤ length (entries r) + 1 = level-length r h.5 in
      let c : 2 ^ level l ≤ 2 ^ level r = pow-le-pow_right (omega arith) (omega arith) in
      let e : n ≡ suc (level l) = omega arith in
      rw (e, two-pow-succ (level l), length-append (entries l) ((k, v) ∷ entries r)) (omega arith)

  -- What `callback` makes of the entries, one after the other until it says to stop.
  unfoldable pub visit {μ} : {S : Type μ} → (V → S → Bool × S) → List (ℕ × V) → S → Bool × S
  visit callback [] s = (false, s)
  visit callback ((k, v) ∷ m) s =
      let (stop, s') = callback v s in
      let rest = visit callback m s' in if stop then (true, s') else rest

  unfoldable pub first : List (ℕ × V) → Option V
  first [] = none
  first ((k, v) ∷ m) = some v

  visit-append {μ} :
      {S : Type μ} (callback : V → S → Bool × S) (a b : List (ℕ × V)) (s : S)
      → visit callback (a ++ b) s ≡ (
          if (visit callback a s).0
          then visit callback a s
          else visit callback b (visit callback a s).1)
  unfolding visit
  visit-append callback [] b s = refl
  visit-append callback ((k, v) ∷ a) b s = elim (Bool-cases (callback v s).0) [
    | inl y ↦ rw y refl
    | inr y ↦ rw (y, visit-append callback a b (callback v s).1) refl
  ]

  pub traverse-visit {μ} :
      {S : Type μ} (callback : V → S → Bool × S) (t : Node V) (s : S)
      → traverse callback t s ≡ visit callback (entries t) s
  unfolding traverse visit entries
  traverse-visit callback leaf s = refl
  traverse-visit callback (node n l k v r) s =
      rw (visit-append callback (entries l) ((k, v) ∷ entries r) s, traverse-visit callback l s)
        (elim (Bool-cases (visit callback (entries l) s).0) [
          | inl y ↦ rw y (ap (λ z. (z, (visit callback (entries l) s).1)) (sym y))
          | inr y ↦ rw (y, traverse-visit callback r) refl
        ])

  first-append :
      (a : List (ℕ × V)) (k : ℕ) (v : V) (b c : List (ℕ × V))
      → first (a ++ ((k, v) ∷ b)) ≡ first ((a ++ ((k, v) ∷ b)) ++ c)
  unfolding first
  first-append [] k v b c = refl
  first-append (e ∷ a) k v b c = refl

  pub first-entries : (t : Node V) → node_first t ≡ first (entries t)
  unfolding node_first first entries
  first-entries leaf = refl
  first-entries (node n leaf k v r) = refl
  first-entries (node n (node m a j w b) k v r) =
      first-entries (node m a j w b) ∙ first-append (entries a) j w (entries b) ((k, v) ∷ entries r)

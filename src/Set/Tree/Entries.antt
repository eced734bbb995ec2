-- ===== src/Set/Tree/Entries.antt =====
-- The tree as an association list in the order of its keys, and that no rotation changes it.
use mathlib.Core.List.{append_assoc}
use eotan.Prelude.{
  ℕ, ◌-◌, ◌≡◌, refl, ◌∙◌, some, List, [], ◌∷◌, ◌++◌, arith, ◌==◌, ltb, ◌||◌, Bool-cases, inl, inr,
}
use eotan.Set.Tree.{
  Node, leaf, node, level, node_skew, node_split, skew_right, skew_right_right, split_right, lower,
  rotate_all, node_rebalance,
}

module _ {ℓ} {V : Type ℓ} where
  unfoldable pub entries : Node V → List (ℕ × V)
  entries leaf = []
  entries (node n l k v r) = entries l ++ ((k, v) ∷ entries r)

  pub entries-skew : (t : Node V) → entries (node_skew t) ≡ entries t
  unfolding entries node_skew
  entries-skew leaf = refl
  entries-skew (node n leaf k v r) = refl
  entries-skew (node n (node m a j w b) k v r) = elim (Bool-cases (m == n)) [
    | inl y ↦ rw y (simp append_assoc)
    | inr z ↦ rw z refl
  ]

  pub entries-split : (t : Node V) → entries (node_split t) ≡ entries t
  unfolding entries node_split
  entries-split leaf = refl
  entries-split (node n l k v leaf) = refl
  entries-split (node n l k v (node m a j w b)) = elim (Bool-cases (level b == n)) [
    | inl y ↦ rw y (simp append_assoc)
    | inr z ↦ rw z refl
  ]

  pub entries-skew_right : (t : Node V) → entries (skew_right t) ≡ entries t
  unfolding entries skew_right
  entries-skew_right leaf = refl
  entries-skew_right (node n l k v r) = rw (entries-skew r) refl

  pub entries-skew_right_right : (t : Node V) → entries (skew_right_right t) ≡ entries t
  unfolding entries skew_right_right
  entries-skew_right_right leaf = refl
  entries-skew_right_right (node n l k v r) = rw (entries-skew_right r) refl

  pub entries-lower : (n : ℕ) (t : Node V) → entries (lower n t) ≡ entries t
  unfolding entries lower
  entries-lower n leaf = refl
  entries-lower n (node m l k v r) = ground arith

  entries-split_right : (t t' : Node V) → split_right t ≡ some t' → entries t' ≡ entries t
  unfolding entries split_right
  entries-split_right leaf t' e = ground arith
  entries-split_right (node n l k v leaf) t' e = ground arith
  entries-split_right (node n l k v (node m a j w b)) t' e =
      ground (arith, entries-split (node m a j w b))

  pub entries-rotate_all : (t t' : Node V) → rotate_all t ≡ some t' → entries t' ≡ entries t
  unfolding rotate_all
  entries-rotate_all t t' e =
      let a = node_skew t in
      let b = skew_right a in
      let c = skew_right_right b in
      entries-split_right (node_split c) t' e
      ∙ entries-split c
      ∙ entries-skew_right_right b
      ∙ entries-skew_right a
      ∙ entries-skew t

  pub entries-rebalance : (t t' : Node V) → node_rebalance t ≡ some t' → entries t' ≡ entries t
  unfolding node_rebalance entries
  entries-rebalance leaf t' e = ground arith
  entries-rebalance (node n l k v r) t' e =
      elim (Bool-cases (ltb (level l) (n - 1) || ltb (level r) (n - 1))) [
        | inl y ↦
            let e' : rotate_all (node (n - 1) l k v (lower (n - 1) r)) ≡ some t' = rw y at e in
            let same : entries (node (n - 1) l k v (lower (n - 1) r)) ≡ entries (node n l k v r) =
              rw (entries-lower (n - 1) r) refl in
            entries-rotate_all (node (n - 1) l k v (lower (n - 1) r)) t' e' ∙ same
        | inr z ↦ let e' : some (node n l k v r) ≡ some t' = rw z at e in ground arith
      ]

-- ===== src/Set/Tree/Rebalance.antt =====
-- What the rotations of a rebalancing make: where the left side got too low beside a right child at
-- the level of the lowered node.
use eotan.Prelude.{
  ℕ, ◌+◌, ◌≤◌, ◌<◌, ◌≡◌, ◌≢◌, refl, some, arith, ◌==◌, Bool-cases, inl, inr, ◌⊎◌, test_eq, test_ne,
  ap, ◌∙◌,
}
use eotan.Set.Tree.{
  Node, leaf, node, level, right, node_skew, node_split, skew_right, skew_right_right, split_right,
  rotate_all,
}
use eotan.Set.Tree.Balance.{
  IsBalanced, level-right, skew_none, skew_balanced, split_none, split_one, split_balanced,
}

module _ {ℓ} {V : Type ℓ} where
  -- What the rotations make of a node lowered to `m`.
  abbrev pub Rebuilt : ℕ → Node V → Type 0
  Rebuilt m t' = IsBalanced t' × ((level t' ≡ m) ⊎ ((level t' ≡ m + 1) × (level (right t') ≤ m)))

  -- The five rotations, by what each of them finds.
  pub rotate_lem :
      (p r b' l l' r' : Node V) (n k i j n' k' : ℕ) (v w v' : V) (a b : Node V)
      → node_skew p ≡ node n l k v r
      → node_skew r ≡ node i a j w b
      → node_skew b ≡ b'
      → node_split (node n l k v (node i a j w b')) ≡ node n' l' k' v' r'
      → 0 < level r'
      → rotate_all p ≡ some (node n' l' k' v' (node_split r'))
  unfolding rotate_all skew_right skew_right_right split_right level
  rotate_lem p r b' l l' leaf n k i j n' k' v w v' a b e f g h z = absurd (omega arith)
  rotate_lem p r b' l l' (node m c y x d) n k i j n' k' v w v' a b e f g h z = rw (e, f, g, h) refl

  -- The left child is too low; the right one is at the level of the lowered node.
  pub low_left :
      (m k j : ℕ) (v w : V) (l a b : Node V)
      → level l + 1 ≡ m
      → IsBalanced l
      → IsBalanced (node m a j w b)
      → (t' : Node V) × (rotate_all (node m l k v (node m a j w b)) ≡ some t') × Rebuilt m t'
  unfolding IsBalanced level right
  low_left m k j v w l a b e hl hr =
      let p = node m l k v (node m a j w b) in
      let r = node m a j w b in
      let s : node_skew p ≡ p = skew_none m k v l r (omega arith) in
      let s' : node_skew r ≡ r = skew_none m j w a b (omega arith) in
      let s'' : node_skew b ≡ b = skew_balanced b hr.5 in
      elim (Bool-cases (level b == m)) [
        | inl y ↦
            let top : level b ≡ m = test_eq y in
            let t : node_split p ≡ node (m + 1) (node m l k v a) j w b =
              split_one m m k j v w l a b top in
            (
              node (m + 1) (node m l k v a) j w b,
              rotate_lem p r b l (node m l k v a) b m k m j (m + 1) j v w w a b s s' s'' t
                    (omega arith)
                  ∙ ap (λ d. some (node (m + 1) (node m l k v a) j w d)) (split_balanced b hr.5),
              (
                (
                  refl,
                  omega arith,
                  omega arith,
                  omega (arith, hr.3),
                  (e, omega arith, omega arith, omega (arith, level-right a hr.4), hl, hr.4),
                  hr.5,
                ),
                inr (refl, omega arith),
              ),
            )
        | inr y ↦
            let below : level b ≢ m = test_ne y in
            let t : node_split p ≡ p = split_none m k v l r (omega arith) in
            (
              p,
              rotate_lem p r b l l r m k m j m k v w v a b s s' s'' t (omega arith)
                  ∙ ap (λ d. some (node m l k v d)) (split_balanced r hr),
              ((e, omega arith, omega arith, omega arith, hl, hr), inl refl),
            )
      ]

  -- The last split, where the right child stood at the level of its parent and was lowered with it.
  module _ (m j : ℕ) (w : V) (d b : Node V) (low : level d + 1 ≡ m) (top : level b ≡ m)
      (hd : IsBalanced d) (hb : IsBalanced b) where
    pub last_split :
        (b' : Node V) × (node_split (node m d j w b) ≡ b')
        × IsBalanced b'
        × (m ≤ level b')
        × (level b' ≤ m + 1)
        × (level (right b') ≤ m)
    unfolding IsBalanced level right
    last_split = go b top hb
      where
        go :
            (b : Node V)
            → level b ≡ m
            → IsBalanced b
            → (b' : Node V) × (node_split (node m d j w b) ≡ b')
              × IsBalanced b'
              × (m ≤ level b')
              × (level b' ≤ m + 1)
              × (level (right b') ≤ m)
        go leaf t h = absurd (omega arith)
        go (node i c y x e) t h = elim (Bool-cases (level e == m)) [
          | inl z ↦
              let flat : level e ≡ m = test_eq z in
              (
                node (i + 1) (node m d j w c) y x e,
                split_one m i j y w x d c e flat,
                ((
                  omega arith,
                  omega arith,
                  omega arith,
                  omega (arith, level-right e h.5),
                  (low, omega arith, omega arith, omega (arith, level-right c h.4), hd, h.4),
                  h.5,
                )),
                omega arith,
                omega arith,
                omega arith,
              )
          | inr z ↦
              let less : level e ≢ m = test_ne z in
              (
                node m d j w (node i c y x e),
                split_none m j w d (node i c y x e) (omega arith),
                (low, omega arith, omega arith, omega arith, hd, h),
                omega arith,
                omega arith,
                omega arith,
              )
        ]

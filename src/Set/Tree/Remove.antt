-- ===== src/Set/Tree/Remove.antt =====
-- Removing from a balanced tree: it always gives a tree, and a balanced one.
use eotan.Prelude.{
  ℕ, ◌+◌, ◌-◌, ◌≤◌, ◌<◌, ◌≡◌, ◌≢◌, refl, true, Option, none, some, arith, ◌==◌, ltb, ◌||◌,
  Bool-cases, inl, inr, ◌⊎◌, test_eq, test_ne, ge_test, lt_test, ap, ◌∙◌,
}
use eotan.Set.Tree.{
  Node, leaf, node, level, right, lower, rotate_all, node_rebalance, node_remove_swap,
  rebalance_under, replace, remove_here, rebalance_left, rebalance_right, node_remove,
}
use eotan.Set.Tree.Balance.{IsBalanced, level-right}
use eotan.Set.Tree.Rebalance.{low_left}
use eotan.Set.Tree.Linked.{low_left_flat, low_right}

module _ {ℓ} {V : Type ℓ} where
  -- What a subtree may become: it keeps its level, and a right child at it is not new; or it falls by one.
  abbrev pub Shrinks : Node V → Node V → Type 0
  Shrinks t t' =
      IsBalanced t'
      × (((level t' ≡ level t) × ((level (right t) ≡ level t) ⊎ (level (right t') < level t)))
          ⊎ (level t' + 1 ≡ level t))

  abbrev Gives : Option (Node V) → Node V → Type ℓ
  Gives o t = (t' : Node V) × (o ≡ some t') × Shrinks t t'

  lower_none : (n : ℕ) (t : Node V) → level t ≤ n → lower n t ≡ t
  unfolding lower level
  lower_none n leaf h = refl
  lower_none n (node m l k v r) h = rw (ge_test {a = n} {b = m} h) refl

  not_low :
      (n k : ℕ) (v : V) (l r : Node V)
      → n ≤ level l + 1
      → n ≤ level r + 1
      → node_rebalance (node n l k v r) ≡ some (node n l k v r)
  unfolding node_rebalance
  not_low n k v l r a b =
      rw
        (
          ge_test {a = level l} {b = n - 1} (omega arith),
          ge_test {a = level r} {b = n - 1} (omega arith),
        )
        refl

  low :
      (n k : ℕ) (v : V) (l r : Node V)
      → (ltb (level l) (n - 1) || ltb (level r) (n - 1)) ≡ true
      → node_rebalance (node n l k v r) ≡ rotate_all (node (n - 1) l k v (lower (n - 1) r))
  unfolding node_rebalance
  low n k v l r h = rw h refl

  -- The levels after the rotations, against the level before.
  settle :
      (n : ℕ) (t t' : Node V)
      → 1 ≤ n
      → level t ≡ n
      → (level t' ≡ n - 1) ⊎ ((level t' ≡ n - 1 + 1) × (level (right t') ≤ n - 1))
      → ((level t' ≡ level t) × ((level (right t) ≡ level t) ⊎ (level (right t') < level t)))
        ⊎ (level t' + 1 ≡ level t)
  settle n t t' p e (inl a) = inr (omega arith)
  settle n t t' p e (inr (a, b)) = inl (omega arith, inr (omega arith))

  keeps_link : (n : ℕ) (r : Node V) → level r ≤ n → (level r ≡ n) ⊎ (level r < n)
  keeps_link n r h = elim (Bool-cases (level r == n)) [
    | inl y ↦ inl (test_eq y)
    | inr y ↦ let ne : level r ≢ n = test_ne y in inr (omega arith)
  ]

  -- The right child stood at the level of the node, which is lowered with it.
  shrink_linked :
      (n k j : ℕ) (v w : V) (l l' a c : Node V)
      → IsBalanced (node n l k v (node n a j w c))
      → IsBalanced l'
      → level l' + 1 ≡ level l
      → Gives (node_rebalance (node n l' k v (node n a j w c))) (node n l k v (node n a j w c))
  unfolding IsBalanced level right lower
  shrink_linked n k j v w l l' leaf c h b less = absurd (omega arith)
  shrink_linked n k j v w l l' (node i d y x u) c h b less =
      let down : lower (n - 1) (node n (node i d y x u) j w c)
          ≡ node (n - 1) (node i d y x u) j w c =
        rw (lt_test {a = n - 1} {b = n} (omega arith)) refl in
      let at : i ≡ n - 1 = omega arith in
      let up : node (n - 1) (node i d y x u) j w c ≡ node (n - 1) (node (n - 1) d y x u) j w c =
        ap (λ z. node (n - 1) (node z d y x u) j w c) at in
      let (t', e, b', same) =
        low_left_flat (n - 1) k j y v w x l' d u c (omega arith) (omega arith) b
          (omega arith, omega arith, omega arith, omega arith, h.5.4.4, h.5.4.5) h.5.5 in
      (
        t',
        low n k v l' (node n (node i d y x u) j w c)
              (rw (lt_test {a = level l'} {b = n - 1} (omega arith)) refl)
            ∙ ap (λ z. rotate_all (node (n - 1) l' k v z)) (down ∙ up)
            ∙ e,
        (b', inl (omega arith, inl refl)),
      )

  pub shrink_left :
      (n k : ℕ) (v : V) (l l' r : Node V)
      → IsBalanced (node n l k v r)
      → Shrinks l l'
      → Gives (node_rebalance (node n l' k v r)) (node n l k v r)
  unfolding IsBalanced level right
  shrink_left n k v l l' r h (b, inl (same, _)) = (
    node n l' k v r,
    not_low n k v l' r (omega arith) (omega arith),
    ((omega arith, h.1, h.2, h.3, b, h.5), inl (refl, keeps_link n r h.1)),
  )
  shrink_left n k v l l' leaf h (b, inr less) = absurd (omega arith)
  shrink_left n k v l l' (node i a j w c) h (b, inr less) = elim (Bool-cases (i == n)) [
    | inl y ↦
        let same : i ≡ n = test_eq y in
        let h' : IsBalanced (node n l k v (node n a j w c)) = rw same at h in
        rw same (shrink_linked n k j v w l l' a c h' b less)
    | inr y ↦
        let below : i ≢ n = test_ne y in
        let at : i ≡ n - 1 = omega arith in
        let keep : lower (n - 1) (node i a j w c) ≡ node (n - 1) a j w c =
          lower_none (n - 1) (node i a j w c) (omega arith) ∙ ap (λ z. node z a j w c) at in
        let (t', e, built) =
          low_left (n - 1) k j v w l' a c (omega arith) b
            (omega arith, omega arith, omega arith, omega arith, h.5.4, h.5.5) in
        (
          t',
          low n k v l' (node i a j w c) (rw (lt_test {a = level l'} {b = n - 1} (omega arith)) refl)
              ∙ ap (λ z. rotate_all (node (n - 1) l' k v z)) keep
              ∙ e,
          (built.0, settle n (node n l k v (node i a j w c)) t' (omega arith) refl built.1),
        )
  ]

  -- The right child fell below the left one.
  shrink_right_low :
      (n k : ℕ) (v : V) (l r r' : Node V)
      → IsBalanced (node n l k v r)
      → IsBalanced r'
      → level r' + 2 ≡ n
      → Gives (node_rebalance (node n l k v r')) (node n l k v r)
  unfolding IsBalanced level right
  shrink_right_low n k v leaf r r' h b less = absurd (omega arith)
  shrink_right_low n k v (node i a j w c) r r' h b less =
      let at : i ≡ n - 1 = omega arith in
      let keep : rotate_all (node (n - 1) (node i a j w c) k v (lower (n - 1) r'))
          ≡ rotate_all (node (n - 1) (node (n - 1) a j w c) k v r') =
        rw (lower_none (n - 1) r' (omega arith))
          (ap (λ z. rotate_all (node (n - 1) (node z a j w c) k v r')) at) in
      let (t', e, built) =
        low_right (n - 1) k j v w a c r' (omega arith)
          (omega arith, omega arith, omega arith, omega arith, h.4.4, h.4.5) b in
      (
        t',
        low n k v (node i a j w c) r'
              (ground (arith, lt_test {a = level r'} {b = n - 1} (omega arith)))
            ∙ keep
            ∙ e,
        (built.0, settle n (node n (node i a j w c) k v r) t' (omega arith) refl built.1),
      )

  pub shrink_right :
      (n k : ℕ) (v : V) (l r r' : Node V)
      → IsBalanced (node n l k v r)
      → Shrinks r r'
      → Gives (node_rebalance (node n l k v r')) (node n l k v r)
  unfolding IsBalanced level right
  shrink_right n k v l r r' h (b, inl (same, link)) = (
    node n l k v r',
    not_low n k v l r' (omega arith) (omega arith),
    (
      (h.0, omega arith, omega arith, omega (arith, level-right r' b), h.4, b),
      inl (refl, rw same (keeps_link n r h.1)),
    ),
  )
  shrink_right n k v l r r' h (b, inr less) = elim (Bool-cases (level r == n)) [
    | inl y ↦
        let at : level r ≡ n = test_eq y in
        (
          node n l k v r',
          not_low n k v l r' (omega arith) (omega arith),
          (
            (h.0, omega arith, omega arith, omega (arith, level-right r' b), h.4, b),
            inl (refl, inl at),
          ),
        )
    | inr y ↦ let below : level r ≢ n = test_ne y in shrink_right_low n k v l r r' h b (omega arith)
  ]

  -- A node with an empty left child gives way to its right child.
  pop_right :
      (n k : ℕ) (v : V) (r : Node V)
      → IsBalanced (node n leaf k v r)
      → Shrinks (node n leaf k v r) r
  unfolding IsBalanced level right
  pop_right n k v r h = elim (Bool-cases (level r == n)) [
    | inl y ↦ let same : level r ≡ n = test_eq y in (h.5, inl (same, inl same))
    | inr y ↦ let less : level r ≢ n = test_ne y in (h.5, inr (omega arith))
  ]

  abbrev GivesSwap : Option (ℕ × V × Node V) → Node V → Type ℓ
  GivesSwap o t = (j : ℕ) × (w : V) × (t' : Node V) × (o ≡ some (j, w, t')) × Shrinks t t'

  node_remove_swap-Shrinks :
      (n k : ℕ) (v : V) (l r : Node V)
      → IsBalanced (node n l k v r)
      → GivesSwap (node_remove_swap (node n l k v r)) (node n l k v r)
  unfolding node_remove_swap rebalance_under IsBalanced level right
  node_remove_swap-Shrinks n k v leaf r h = (k, v, r, refl, pop_right n k v r h)
  node_remove_swap-Shrinks n k v (node m a j w b) r h =
      let (i, x, l', e, s) = node_remove_swap-Shrinks m j w a b h.4 in
      let (t', e', s') = shrink_left n k v (node m a j w b) l' r h s in
      (i, x, t', rw (e, e', rebalance_under) refl, s')

  abbrev pub GivesRemoved : Option (Option V × Node V) → Node V → Type ℓ
  GivesRemoved o t = (x : Option V) × (t' : Node V) × (o ≡ some (x, t')) × Shrinks t t'

  remove_here-Shrinks :
      (n k : ℕ) (v : V) (l r : Node V)
      → IsBalanced (node n l k v r)
      → GivesRemoved (remove_here n l v r) (node n l k v r)
  unfolding remove_here replace IsBalanced level right
  remove_here-Shrinks n k v leaf r h = (some v, r, refl, pop_right n k v r h)
  remove_here-Shrinks n k v (node m a j w b) leaf h = absurd (omega arith)
  remove_here-Shrinks n k v (node m a j w b) (node i c y x d) h =
      let (q, u, r', e, s) = node_remove_swap-Shrinks i y x c d h.5 in
      let (t', e', s') = shrink_right n q u (node m a j w b) (node i c y x d) r' h s in
      (some v, t', rw (e, replace, e') refl, s')

  -- `node_remove` of a balanced tree gives a balanced tree.
  pub node_remove-Shrinks : (t : Node V) (q : ℕ) → IsBalanced t → GivesRemoved (node_remove t q) t
  unfolding node_remove rebalance_left rebalance_right IsBalanced level right
  node_remove-Shrinks leaf q h = (none, leaf, refl, (tt, inl (refl, inl refl)))
  node_remove-Shrinks (node n l k v r) q h = elim (Bool-cases (q == k)) [
    | inl y ↦ rw y (remove_here-Shrinks n k v l r h)
    | inr y ↦ elim (Bool-cases (ltb q k)) [
      | inl z ↦
          let (x, l', e, s) = node_remove-Shrinks l q h.4 in
          let (t', e', s') = shrink_left n k v l l' r h s in
          (x, t', rw (y, z, e, rebalance_left, e') refl, s')
      | inr z ↦
          let (x, r', e, s) = node_remove-Shrinks r q h.5 in
          let (t', e', s') = shrink_right n k v l r r' h s in
          (x, t', rw (y, z, e, rebalance_right, e') refl, s')
    ]
  ]

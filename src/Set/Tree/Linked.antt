-- ===== src/Set/Tree/Linked.antt =====
-- The other rebalancings: where the lowered right child has a left child at its level, and where the
-- right side got too low.
use eotan.Prelude.{
  ℕ, ◌+◌, ◌≡◌, ◌≢◌, refl, some, arith, ◌==◌, Bool-cases, inl, inr, test_eq, test_ne, ap, ◌∙◌,
}
use eotan.Set.Tree.{Node, leaf, node, level, right, node_skew, node_split, rotate_all}
use eotan.Set.Tree.Balance.{
  IsBalanced, level-right, skew_none, skew_one, skew_balanced, split_none, split_one,
}
use eotan.Set.Tree.Rebalance.{Rebuilt, rotate_lem, last_split}

module _ {ℓ} {V : Type ℓ} where
  -- The left child is too low, and the right one, lowered to its level, has a left child that links on.
  low_left_linked :
      (m i k j y h : ℕ) (v w x u : V) (l c d d' b : Node V)
      → level l + 1 ≡ m
      → level b ≡ m
      → i ≡ m
      → IsBalanced l
      → IsBalanced (node m c y x (node i d h u d'))
      → IsBalanced b
      → (t' : Node V) × (rotate_all (node m l k v (node m (node m c y x (node i d h u d')) j w b))
          ≡ some t')
        × IsBalanced t'
        × (level t' ≡ m + 1)
  unfolding IsBalanced level right
  low_left_linked m i k j y h v w x u l c d d' b e top at hl ha hb =
      let r = node m (node m c y x (node i d h u d')) j w b in
      let p = node m l k v r in
      let rest = node m d' j w b in
      let s : node_skew p ≡ p = skew_none m k v l r (omega arith) in
      let s' : node_skew r ≡ node m c y x (node m (node i d h u d') j w b) =
        skew_one m m j y w x c (node i d h u d') b refl in
      let q : node_skew (node m (node i d h u d') j w b) ≡ node i d h u rest =
        skew_one m i j h w u d d' b at in
      let t : node_split (node m l k v (node m c y x (node i d h u rest)))
          ≡ node (m + 1) (node m l k v c) y x (node i d h u rest) =
        split_one m m k y v x l c (node i d h u rest) at in
      let t' : node_split (node i d h u rest) ≡ node (m + 1) (node i d h u d') j w b =
        split_one i m h j u w d d' b (omega arith) in
      (
        node (m + 1) (node m l k v c) y x (node (m + 1) (node i d h u d') j w b),
        rotate_lem p r (node i d h u rest) l (node m l k v c) (node i d h u rest) m k m y (m + 1) y
              v x x c (node m (node i d h u d') j w b) s s' q t (omega arith)
            ∙ ap (λ z. some (node (m + 1) (node m l k v c) y x z)) t',
        (
          refl,
          omega arith,
          omega arith,
          omega arith,
          (e, omega arith, omega arith, omega (arith, level-right c ha.4), hl, ha.4),
          (omega arith, omega arith, omega arith, omega (arith, level-right b hb), ha.5, hb),
        ),
        refl,
      )

  -- The left child is too low, and the right one has been lowered to the level of the lowered node.
  pub low_left_flat :
      (m k j y : ℕ) (v w x : V) (l c d b : Node V)
      → level l + 1 ≡ m
      → level b ≡ m
      → IsBalanced l
      → IsBalanced (node m c y x d)
      → IsBalanced b
      → (t' : Node V) × (rotate_all (node m l k v (node m (node m c y x d) j w b)) ≡ some t')
        × IsBalanced t'
        × (level t' ≡ m + 1)
  unfolding IsBalanced level right
  low_left_flat m k j y v w x l c d b e top hl ha hb =
      let r = node m (node m c y x d) j w b in
      let p = node m l k v r in
      let s : node_skew p ≡ p = skew_none m k v l r (omega arith) in
      let s' : node_skew r ≡ node m c y x (node m d j w b) = skew_one m m j y w x c d b refl in
      let left : IsBalanced (node m l k v c) =
        (e, omega arith, omega arith, omega (arith, level-right c ha.4), hl, ha.4) in
      elim (Bool-cases (level d == m)) [
        | inl z ↦ linked d (test_eq z) ha
        | inr z ↦
            let less : level d ≢ m = test_ne z in
            let (b', q, hb', lo, hi, ri) = last_split m j w d b (omega arith) top ha.5 hb in
            let q' : node_skew (node m d j w b) ≡ node m d j w b =
              skew_none m j w d b (omega arith) in
            let t : node_split (node m l k v (node m c y x (node m d j w b)))
                ≡ node (m + 1) (node m l k v c) y x (node m d j w b) =
              split_one m m k y v x l c (node m d j w b) refl in
            (
              node (m + 1) (node m l k v c) y x b',
              rotate_lem p r (node m d j w b) l (node m l k v c) (node m d j w b) m k m y (m + 1) y
                    v x x c (node m d j w b) s s' q' t (omega arith)
                  ∙ ap (λ z. some (node (m + 1) (node m l k v c) y x z)) q,
              (refl, omega arith, omega arith, omega arith, left, hb'),
              refl,
            )
      ]
    where
      linked :
          (d : Node V)
          → level d ≡ m
          → IsBalanced (node m c y x d)
          → (t' : Node V) × (rotate_all (node m l k v (node m (node m c y x d) j w b)) ≡ some t')
            × IsBalanced t'
            × (level t' ≡ m + 1)
      linked leaf z ha = absurd (omega arith)
      linked (node i d h u d') z ha =
          low_left_linked m i k j y h v w x u l c d d' b e top z hl ha hb

  -- The right child is too low; the left one is at the level of the lowered node.
  pub low_right :
      (m k j : ℕ) (v w : V) (a b r : Node V)
      → level r + 1 ≡ m
      → IsBalanced (node m a j w b)
      → IsBalanced r
      → (t' : Node V) × (rotate_all (node m (node m a j w b) k v r) ≡ some t') × Rebuilt m t'
  unfolding IsBalanced level right
  low_right m k j v w a b r e hl hr = elim (Bool-cases (level b == m)) [
    | inl z ↦ linked b (test_eq z) hl
    | inr z ↦
        let less : level b ≢ m = test_ne z in
        let p = node m (node m a j w b) k v r in
        let q = node m b k v r in
        let s : node_skew p ≡ node m a j w q = skew_one m m k j v w a b r refl in
        let s' : node_skew q ≡ q = skew_none m k v b r (omega arith) in
        let t : node_split (node m a j w q) ≡ node m a j w q = split_none m j w a q (omega arith) in
        let t' : node_split q ≡ q = split_none m k v b r (omega (arith, level-right r hr)) in
        (
          node m a j w q,
          rotate_lem p q r a a q m j m k m j w v w b r s s' (skew_balanced r hr) t (omega arith)
              ∙ ap (λ z. some (node m a j w z)) t',
          (
            (
              omega arith,
              omega arith,
              omega arith,
              omega arith,
              hl.4,
              (omega arith, omega arith, omega arith, omega (arith, level-right r hr), hl.5, hr),
            ),
            inl refl,
          ),
        )
  ]
    where
      linked :
          (b : Node V)
          → level b ≡ m
          → IsBalanced (node m a j w b)
          → (t' : Node V) × (rotate_all (node m (node m a j w b) k v r) ≡ some t') × Rebuilt m t'
      linked leaf z hl = absurd (omega arith)
      linked (node i c y x d) z hl =
          let p = node m (node m a j w (node i c y x d)) k v r in
          let q = node m (node i c y x d) k v r in
          let rest = node m d k v r in
          let s : node_skew p ≡ node m a j w q = skew_one m m k j v w a (node i c y x d) r refl in
          let s' : node_skew q ≡ node i c y x rest = skew_one m i k y v x c d r z in
          let s'' : node_skew rest ≡ rest = skew_none m k v d r (omega arith) in
          let t : node_split (node m a j w (node i c y x rest))
              ≡ node (i + 1) (node m a j w c) y x rest =
            split_one m i j y w x a c rest refl in
          let t' : node_split rest ≡ rest =
            split_none m k v d r (omega (arith, level-right r hr)) in
          (
            node (i + 1) (node m a j w c) y x rest,
            rotate_lem p q rest a (node m a j w c) rest m j i y (i + 1) y w x x c rest s s' s'' t
                  (omega arith)
                ∙ ap (λ z. some (node (i + 1) (node m a j w c) y x z)) t',
            (
              (
                omega arith,
                omega arith,
                omega arith,
                omega (arith, level-right r hr),
                (
                  omega arith,
                  omega arith,
                  omega arith,
                  omega (arith, level-right c hl.5.4),
                  hl.4,
                  hl.5.4,
                ),
                (
                  omega arith,
                  omega arith,
                  omega arith,
                  omega (arith, level-right r hr),
                  hl.5.5,
                  hr,
                ),
              ),
              inr (omega arith, omega arith),
            ),
          )

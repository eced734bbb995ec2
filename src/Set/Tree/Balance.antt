-- ===== src/Set/Tree/Balance.antt =====
-- Putting a node keeps a tree balanced.
use eotan.Prelude.{
  ℕ, ◌+◌, ◌≤◌, ◌<◌, ◌≡◌, ◌≢◌, refl, false, Option, none, some, arith, ◌==◌, ltb, Bool-cases,
  test_eq, test_ne, ne_test, eq_test, Option-cases, inl, inr, ◌⊎◌,
}
use eotan.Set.Tree.{
  Node, leaf, node, level, right, node_skew, node_split, node_put, put_left, put_right,
}

module _ {ℓ} {V : Type ℓ} where
  -- A left child is one level below its parent, a right child may be at its level, and a right child
  -- of a right child is below.
  unfoldable pub IsBalanced : Node V → Type 0
  unfolding level right
  IsBalanced leaf = Unit {0}
  IsBalanced (node n l k v r) =
      (level l + 1 ≡ n)
      × (level r ≤ n)
      × (n ≤ level r + 1)
      × (level (right r) < n)
      × IsBalanced l
      × IsBalanced r

  -- What a subtree may become: it keeps its level, or rises by one if its right child stood at it.
  abbrev pub Grows : Node V → Node V → Type 0
  Grows t t' =
      IsBalanced t'
      × ((level t' ≡ level t)
          ⊎ ((level t' ≡ level t + 1) × (level (right t) ≡ level t) × (level (right t') ≡ level t)))

  pub level-right : (t : Node V) → IsBalanced t → level (right t) ≤ level t
  unfolding IsBalanced level right
  level-right leaf h = omega arith
  level-right (node n l k v r) h = omega arith

  -- The left child has grown.
  grow_left :
      (n k : ℕ) (v : V) (l l' r : Node V)
      → IsBalanced (node n l k v r)
      → Grows l l'
      → Grows (node n l k v r) (node_split (node_skew (node n l' k v r)))
  unfolding IsBalanced node_skew node_split level right
  grow_left n k v l leaf leaf h g = ground arith
  grow_left n k v l leaf (node m a j w b) h g = ground arith
  grow_left n k v l (node i c y x d) leaf h g = ground arith
  grow_left n k v l (node i c y x d) (node m a j w b) h g = elim (Bool-cases (i == n)) [
    | inl p ↦
        let at : i ≡ n = test_eq p in
        elim (Bool-cases (m == i)) [
          | inl q ↦
              let e : m ≡ i = test_eq q in
              rw (p, q)
                (
                  (omega arith, omega arith, omega arith, omega arith, g.0, h.5),
                  inr (omega arith, omega arith, omega arith),
                )
          | inr q ↦
              let e : m ≢ i = test_ne q in
              let low : level (node m a j w b) + 1 ≡ n = omega arith in
              rw (p, q)
                (
                  (
                    omega arith,
                    omega arith,
                    omega arith,
                    omega arith,
                    g.0.4,
                    (omega arith, omega arith, omega arith, omega arith, g.0.5, h.5),
                  ),
                  inl (omega arith),
                )
        ]
    | inr p ↦
        let q : (level b == n) ≡ false = ne_test (omega arith) in
        let e : i ≢ n = test_ne p in rw (p, q) ((omega arith, h.1, h.2, h.3, g.0, h.5), inl refl)
  ]

  grow_right :
      (n k : ℕ) (v : V) (l r r' : Node V)
      → IsBalanced (node n l k v r)
      → Grows r r'
      → Grows (node n l k v r) (node_split (node_skew (node n l k v r')))
  unfolding IsBalanced node_skew node_split level right
  grow_right n k v leaf r leaf h g = ground arith
  grow_right n k v leaf r (node m a j w b) h g = ground (arith, level-right b)
  grow_right n k v (node i c y x d) r leaf h g = ground arith
  grow_right n k v (node i c y x d) r (node m a j w b) h g =
      let p : (i == n) ≡ false = ne_test (omega arith) in
      elim (Bool-cases (level b == n)) [
        | inl q ↦
            let e : level b ≡ n = test_eq q in
            let top : m ≡ n = omega (arith, level-right b g.0.5) in
            rw (p, q)
              (
                (
                  omega arith,
                  omega arith,
                  omega arith,
                  omega (arith, level-right b g.0.5),
                  (h.0, omega arith, omega arith, omega (arith, level-right a g.0.4), h.4, g.0.4),
                  g.0.5,
                ),
                inr (omega arith, omega arith, omega arith),
              )
        | inr q ↦
            let e : level b ≢ n = test_ne q in
            rw (p, q) ((omega arith, omega arith, omega arith, omega arith, h.4, g.0), inl refl)
      ]

  -- Where nothing is to do, neither rotation does anything.
  pub skew_none :
      (n k : ℕ) (v : V) (l r : Node V) → level l < n → node_skew (node n l k v r) ≡ node n l k v r
  unfolding node_skew level
  skew_none n k v leaf r h = refl
  skew_none n k v (node m a j w b) r h = rw (ne_test {a = m} {b = n} (omega arith)) refl

  pub split_none :
      (n k : ℕ) (v : V) (l r : Node V)
      → level (right r) < n
      → node_split (node n l k v r) ≡ node n l k v r
  unfolding node_split right
  split_none n k v l leaf h = refl
  split_none n k v l (node m a j w b) h = rw (ne_test {a = level b} {b = n} (omega arith)) refl

  pub skew_one :
      (n m k j : ℕ) (v w : V) (a b r : Node V)
      → m ≡ n
      → node_skew (node n (node m a j w b) k v r) ≡ node m a j w (node n b k v r)
  unfolding node_skew
  skew_one n m k j v w a b r h = rw (eq_test {a = m} {b = n} h) refl

  pub split_one :
      (n m k j : ℕ) (v w : V) (l a b : Node V)
      → level b ≡ n
      → node_split (node n l k v (node m a j w b)) ≡ node (m + 1) (node n l k v a) j w b
  unfolding node_split
  split_one n m k j v w l a b h = rw (eq_test {a = level b} {b = n} h) refl

  pub skew_balanced : (t : Node V) → IsBalanced t → node_skew t ≡ t
  unfolding node_skew IsBalanced
  skew_balanced leaf h = refl
  skew_balanced (node n l k v r) h = skew_none n k v l r (omega arith)

  pub split_balanced : (t : Node V) → IsBalanced t → node_split t ≡ t
  unfolding node_split IsBalanced
  split_balanced leaf h = refl
  split_balanced (node n l k v r) h = split_none n k v l r h.3

  put_left-Grows :
      (n k q : ℕ) (v x : V) (l r t' : Node V)
      → IsBalanced (node n l k v r)
      → ((l' : Node V) → node_put l q x ≡ some l' → Grows l l')
      → put_left (node_put l q x) n k v r ≡ some t'
      → Grows (node n l k v r) t'
  unfolding put_left
  put_left-Grows n k q v x l r t' h g e = elim (Option-cases (node_put l q x)) [
    | inl z ↦ let e' : ◌≡◌ {A = Option (Node V)} none (some t') = rw z at e in cc
    | inr (l', z) ↦
        let e' : some (node_split (node_skew (node n l' k v r))) ≡ some t' =
          rw (z, put_left) at e in
        let s : node_split (node_skew (node n l' k v r)) ≡ t' = cc in
        rw (← s) (grow_left n k v l l' r h (g l' z))
  ]

  put_right-Grows :
      (n k q : ℕ) (v x : V) (l r t' : Node V)
      → IsBalanced (node n l k v r)
      → ((r' : Node V) → node_put r q x ≡ some r' → Grows r r')
      → put_right (node_put r q x) n l k v ≡ some t'
      → Grows (node n l k v r) t'
  unfolding put_right
  put_right-Grows n k q v x l r t' h g e = elim (Option-cases (node_put r q x)) [
    | inl z ↦ let e' : ◌≡◌ {A = Option (Node V)} none (some t') = rw z at e in cc
    | inr (r', z) ↦
        let e' : some (node_split (node_skew (node n l k v r'))) ≡ some t' =
          rw (z, put_right) at e in
        let s : node_split (node_skew (node n l k v r')) ≡ t' = cc in
        rw (← s) (grow_right n k v l r r' h (g r' z))
  ]

  pub node_put-Grows :
      (t : Node V) (q : ℕ) (x : V) (t' : Node V)
      → IsBalanced t
      → node_put t q x ≡ some t'
      → Grows t t'
  unfolding node_put IsBalanced
  node_put-Grows leaf q x t' h e =
      let s : node 1 leaf q x leaf ≡ t' = cc in
      rw (← s) ((refl, omega arith, omega arith, omega arith, tt, tt), inr (refl, refl, refl))
  node_put-Grows (node n l k v r) q x t' h e = elim (Bool-cases (q == k)) [
    | inl y ↦ let e' : ◌≡◌ {A = Option (Node V)} none (some t') = rw y at e in cc
    | inr y ↦ elim (Bool-cases (ltb q k)) [
      | inl z ↦
          put_left-Grows n k q v x l r t' h (λ l' e'. node_put-Grows l q x l' h.4 e')
            (rw (y, z) at e)
      | inr z ↦
          put_right-Grows n k q v x l r t' h (λ r' e'. node_put-Grows r q x r' h.5 e')
            (rw (y, z) at e)
    ]
  ]

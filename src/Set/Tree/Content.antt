-- ===== src/Set/Tree/Content.antt =====
-- What the operations do to the association list that a tree stands for.
use eotan.Prelude.{
  ℕ, ◌≡◌, refl, sym, ap, ◌∙◌, false, Option, none, some, ◌∷◌, ◌++◌, arith, ◌==◌, ltb, if◌then◌else◌,
  Bool-cases, Option-cases, inl, inr,
}
use mathlib.Core.List.{append-nil}
use eotan.Set.Tree.{
  Node, leaf, node, Removed, node_skew, node_split, node_put, put_left, put_right, node_get,
  node_rebalance, node_remove_swap, rebalance_under, replace, remove_here, rebalance_left,
  rebalance_right, node_remove,
}
use eotan.Set.Tree.Entries.{entries, entries-skew, entries-split, entries-rebalance}
use eotan.Set.Tree.Assoc.{
  lookup, insert, delete, IsSorted, Sorted-middle, lookup-middle, insert-middle, delete-middle,
}

module _ {ℓ} {V : Type ℓ} where
  pub node_get-lookup :
      (t : Node V) (q : ℕ) → IsSorted (entries t) → node_get t q ≡ lookup q (entries t)
  unfolding node_get entries lookup
  node_get-lookup leaf q s = refl
  node_get-lookup (node n l k v r) q s =
      let (sl, bl, sr, ar) = Sorted-middle k v (entries l) (entries r) s in
      rw
        (
          lookup-middle q k v (entries r) (entries l) bl ar,
          node_get-lookup l q sl,
          node_get-lookup r q sr,
        )
        refl

  -- A new key is put at its place.
  pub node_put_new :
      (t : Node V) (q : ℕ) (x : V)
      → IsSorted (entries t)
      → lookup q (entries t) ≡ none
      → (t' : Node V) × (node_put t q x ≡ some t') × (entries t' ≡ insert q x (entries t))
  unfolding node_put entries lookup insert put_left put_right
  node_put_new leaf q x s e = (node 1 leaf q x leaf, refl, refl)
  node_put_new (node n l k v r) q x s e =
      let (sl, bl, sr, ar) = Sorted-middle k v (entries l) (entries r) s in
      let e' : (if q == k
            then some v
            else if ltb q k
            then lookup q (entries l)
            else lookup q (entries r))
          ≡ none =
        sym (lookup-middle q k v (entries r) (entries l) bl ar) ∙ e in
      let other : (q == k) ≡ false = ground arith in
      elim (Bool-cases (ltb q k)) [
        | inl z ↦
            let (l', p, c) = node_put_new l q x sl (ground arith) in
            (
              node_split (node_skew (node n l' k v r)),
              rw (other, z, p, put_left) refl,
              entries-split (node_skew (node n l' k v r))
                  ∙ entries-skew (node n l' k v r)
                  ∙ rw (insert-middle q k v (entries r) x (entries l) bl other, z, c) refl,
            )
        | inr z ↦
            let (r', p, c) = node_put_new r q x sr (ground arith) in
            (
              node_split (node_skew (node n l k v r')),
              rw (other, z, p, put_right) refl,
              entries-split (node_skew (node n l k v r'))
                  ∙ entries-skew (node n l k v r')
                  ∙ rw (insert-middle q k v (entries r) x (entries l) bl other, z, c) refl,
            )
      ]

  -- A key that is there is refused.
  pub node_put_old :
      (t : Node V) (q : ℕ) (x w : V)
      → IsSorted (entries t)
      → lookup q (entries t) ≡ some w
      → node_put t q x ≡ none
  unfolding node_put entries lookup put_left put_right
  node_put_old leaf q x w s e = cc
  node_put_old (node n l k v r) q x w s e =
      let (sl, bl, sr, ar) = Sorted-middle k v (entries l) (entries r) s in
      let e' : (if q == k
            then some v
            else if ltb q k
            then lookup q (entries l)
            else lookup q (entries r))
          ≡ some w =
        sym (lookup-middle q k v (entries r) (entries l) bl ar) ∙ e in
      elim (Bool-cases (q == k)) [
        | inl y ↦ rw y refl
        | inr y ↦ elim (Bool-cases (ltb q k)) [
          | inl z ↦ rw (y, z, node_put_old l q x w sl (ground arith), put_left) refl
          | inr z ↦ rw (y, z, node_put_old r q x w sr (ground arith), put_right) refl
        ]
      ]

  rebalance_under_lem :
      (o : Option (ℕ × V × Node V)) (n k : ℕ) (v : V) (r : Node V) (j : ℕ) (w : V) (t' : Node V)
      → rebalance_under o n k v r ≡ some (j, w, t')
      → (l' : Node V) × (o ≡ some (j, w, l')) × (node_rebalance (node n l' k v r) ≡ some t')
  unfolding rebalance_under
  rebalance_under_lem none n k v r j w t' e = cc
  rebalance_under_lem (some (i, x, l')) n k v r j w t' e =
      elim (Option-cases (node_rebalance (node n l' k v r))) [
        | inl z ↦
            let e' : ◌≡◌ {A = Option (ℕ × V × Node V)} none (some (j, w, t')) =
              rw (z, rebalance_under) at e in
            cc
        | inr (p, z) ↦ (l', ground arith, ground arith)
      ]

  entries-swap :
      (t : Node V) (j : ℕ) (w : V) (t' : Node V)
      → node_remove_swap t ≡ some (j, w, t')
      → entries t ≡ (j, w) ∷ entries t'
  unfolding node_remove_swap entries
  entries-swap leaf j w t' e = cc
  entries-swap (node n leaf k v r) j w t' e = ground arith
  entries-swap (node n (node m a i x b) k v r) j w t' e =
      let (l', o, p) = rebalance_under_lem (node_remove_swap (node m a i x b)) n k v r j w t' e in
      let c : entries (node m a i x b) ≡ (j, w) ∷ entries l' =
        entries-swap (node m a i x b) j w l' o in
      let d : entries t' ≡ entries l' ++ ((k, v) ∷ entries r) =
        entries-rebalance (node n l' k v r) t' p in
      ap (λ z. z ++ ((k, v) ∷ entries r)) c ∙ ap (λ z. (j, w) ∷ z) (sym d)

  replace_lem :
      (o : Option (ℕ × V × Node V)) (v : V) (n : ℕ) (l : Node V) (x : Option V) (t' : Node V)
      → replace v n l o ≡ some (x, t')
      → (j : ℕ) × (w : V) × (r : Node V) × (o ≡ some (j, w, r))
        × (node_rebalance (node n l j w r) ≡ some t')
        × (x ≡ some v)
  unfolding replace
  replace_lem none v n l x t' e = cc
  replace_lem (some (j, w, r)) v n l x t' e =
      elim (Option-cases (node_rebalance (node n l j w r))) [
        | inl z ↦ let e' : ◌≡◌ {A = Removed V} none (some (x, t')) = rw (z, replace) at e in cc
        | inr (p, z) ↦ (j, w, r, refl, ground arith, ground arith)
      ]

  remove_here-entries :
      (n : ℕ) (l : Node V) (v : V) (r : Node V) (x : Option V) (t' : Node V)
      → remove_here n l v r ≡ some (x, t')
      → (x ≡ some v) × (entries t' ≡ entries l ++ entries r)
  unfolding remove_here entries
  remove_here-entries n leaf v r x t' e = (ground arith, ground arith)
  remove_here-entries n (node m a j w b) v leaf x t' e =
      let s : node m a j w b ≡ t' = ground arith in
      (ground arith, rw (← s) (sym (append-nil (entries (node m a j w b)))))
  remove_here-entries n (node m a j w b) v (node i c y u d) x t' e =
      let (k, h, r', o, p, q) =
        replace_lem (node_remove_swap (node i c y u d)) v n (node m a j w b) x t' e in
      (
        q,
        entries-rebalance (node n (node m a j w b) k h r') t' p
            ∙ ap (λ z. entries (node m a j w b) ++ z)
                (sym (entries-swap (node i c y u d) k h r' o)),
      )

  rebalance_left_lem :
      (o : Removed V) (n k : ℕ) (v : V) (r : Node V) (x : Option V) (t' : Node V)
      → rebalance_left o n k v r ≡ some (x, t')
      → (l' : Node V) × (o ≡ some (x, l')) × (node_rebalance (node n l' k v r) ≡ some t')
  unfolding rebalance_left
  rebalance_left_lem none n k v r x t' e = cc
  rebalance_left_lem (some (y, l')) n k v r x t' e =
      elim (Option-cases (node_rebalance (node n l' k v r))) [
        | inl z ↦
            let e' : ◌≡◌ {A = Removed V} none (some (x, t')) = rw (z, rebalance_left) at e in cc
        | inr (p, z) ↦ (l', ground arith, ground arith)
      ]

  rebalance_right_lem :
      (o : Removed V) (n : ℕ) (l : Node V) (k : ℕ) (v : V) (x : Option V) (t' : Node V)
      → rebalance_right o n l k v ≡ some (x, t')
      → (r' : Node V) × (o ≡ some (x, r')) × (node_rebalance (node n l k v r') ≡ some t')
  unfolding rebalance_right
  rebalance_right_lem none n l k v x t' e = cc
  rebalance_right_lem (some (y, r')) n l k v x t' e =
      elim (Option-cases (node_rebalance (node n l k v r'))) [
        | inl z ↦
            let e' : ◌≡◌ {A = Removed V} none (some (x, t')) = rw (z, rebalance_right) at e in cc
        | inr (p, z) ↦ (r', ground arith, ground arith)
      ]

  -- The removed node is the one of the key, and its entry alone is gone.
  pub node_remove-entries :
      (t : Node V) (q : ℕ) (x : Option V) (t' : Node V)
      → IsSorted (entries t)
      → node_remove t q ≡ some (x, t')
      → (x ≡ lookup q (entries t)) × (entries t' ≡ delete q (entries t))
  unfolding node_remove entries lookup delete
  node_remove-entries leaf q x t' s e = (ground arith, ground arith)
  node_remove-entries (node n l k v r) q x t' s e =
      let (sl, bl, sr, ar) = Sorted-middle k v (entries l) (entries r) s in
      rw
        (
          lookup-middle q k v (entries r) (entries l) bl ar,
          delete-middle q k v (entries r) (entries l) bl ar,
        )
        (elim (Bool-cases (q == k)) [
          | inl y ↦ rw y (remove_here-entries n l v r x t' (rw y at e))
          | inr y ↦ elim (Bool-cases (ltb q k)) [
            | inl z ↦
                let (l', o, p) =
                  rebalance_left_lem (node_remove l q) n k v r x t' (rw (y, z) at e) in
                let (f, g) = node_remove-entries l q x l' sl o in
                rw (y, z)
                  (
                    f,
                    entries-rebalance (node n l' k v r) t' p
                        ∙ ap (λ z. z ++ ((k, v) ∷ entries r)) g,
                  )
            | inr z ↦
                let (r', o, p) =
                  rebalance_right_lem (node_remove r q) n l k v x t' (rw (y, z) at e) in
                let (f, g) = node_remove-entries r q x r' sr o in
                rw (y, z)
                  (
                    f,
                    entries-rebalance (node n l k v r') t' p
                        ∙ ap (λ z. entries l ++ ((k, v) ∷ z)) g,
                  )
          ]
        ])

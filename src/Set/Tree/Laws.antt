-- ===== src/Set/Tree/Laws.antt =====
-- The tree against the association list in the order of its keys, and how high it gets.
use native.Mathlib.Nat.{pow-le-pow_right, two-pow-succ, mul-le-mul, le_trans}
use eotan.Prelude.{
  ℕ, zero, suc, ◌+◌, ◌*◌, ◌^◌, ◌≤◌, ◌≡◌, refl, sym, ap, ◌∙◌, Bool, true, false, Option, none, some,
  arith, ◌==◌, if◌then◌else◌, Option-cases, inl, inr, length,
}
use eotan.Set.Tree.{
  Node, Tree, level, node_put, node_remove, node_get, tree_get, tree_put, tree_remove, counted,
  tree_first, traverse,
}
use eotan.Set.Tree.Height.{
  height, height-level, level-length, visit, first, first-entries, traverse-visit,
}
use eotan.Set.Tree.Entries.{entries}
use eotan.Set.Tree.Assoc.{
  lookup, delete, IsSorted, lookup-insert, lookup-delete, insert-IsSorted, delete-IsSorted,
  length-insert, length-delete, found,
}
use eotan.Set.Tree.Balance.{IsBalanced, node_put-Grows}
use eotan.Set.Tree.Remove.{node_remove-Shrinks}
use eotan.Set.Tree.Content.{node_get-lookup, node_put_new, node_put_old, node_remove-entries}

power_twice : (a : ℕ) → 2 ^ (a + a) ≡ 2 ^ a * 2 ^ a
power_twice zero = refl
power_twice (suc a) =
    let e : suc a + suc a ≡ suc (suc (a + a)) = omega arith in
    rw (e, two-pow-succ (suc (a + a)), two-pow-succ (a + a), two-pow-succ a, power_twice a)
      (omega arith)

module _ {ℓ} {V : Type ℓ} where
  pub record IsValid (t : Tree V) : Type 0 where
    pub balanced : IsBalanced t.root
    pub sorted : IsSorted (entries t.root)
    pub counts : t.node_num ≡ length (entries t.root)

  -- What a put finds and leaves at the key.
  abbrev pub is_new : Option V → Bool
  is_new none = true
  is_new (some w) = false

  abbrev pub kept_or : V → Option V → Option V
  kept_or x none = some x
  kept_or x (some w) = some w

  abbrev pub Puts : Tree V → ℕ → V → Bool × Tree V → Type ℓ
  Puts t q x (fresh, t') =
      IsValid t'
      × (fresh ≡ is_new (tree_get t q))
      × ((j : ℕ) → tree_get t' j ≡ (if j == q then kept_or x (tree_get t q) else tree_get t j))

  put_none : (t : Tree V) (q : ℕ) (x : V) → node_put t.root q x ≡ none → tree_put t q x ≡ (false, t)
  unfolding tree_put
  put_none t q x e = rw (e, tree_put) refl

  put_some :
      (t : Tree V) (q : ℕ) (x : V) (p : Node V)
      → node_put t.root q x ≡ some p
      → tree_put t q x ≡ (true, record t { root = p; node_num = t.node_num + 1 })
  unfolding tree_put
  put_some t q x p e = rw (e, tree_put) refl

  put_old :
      (t : Tree V) (q : ℕ) (x w : V)
      → IsValid t
      → lookup q (entries t.root) ≡ some w
      → Puts t q x (tree_put t q x)
  unfolding tree_get
  put_old t q x w h e =
      let g : node_get t.root q ≡ some w = node_get-lookup t.root q h.sorted ∙ e in
      rw (put_none t q x (node_put_old t.root q x w h.sorted e)) (rw g (h, refl, λ j. ground arith))

  put_new :
      (t : Tree V) (q : ℕ) (x : V)
      → IsValid t
      → lookup q (entries t.root) ≡ none
      → Puts t q x (tree_put t q x)
  unfolding tree_get
  put_new t q x h e =
      let (p, o, c) = node_put_new t.root q x h.sorted e in
      let s : IsSorted (entries p) = rw c (insert-IsSorted q x (entries t.root) h.sorted e) in
      let g : node_get t.root q ≡ none = node_get-lookup t.root q h.sorted ∙ e in
      rw (put_some t q x p o) (
        rw g (
          record {
            balanced = (node_put-Grows t.root q x p h.balanced o).0;
            sorted = s;
            counts =
                ap (λ n. n + 1) h.counts
                ∙ sym (length-insert q x (entries t.root))
                ∙ ap length (sym c);
          },
          refl,
          λ j.
              node_get-lookup p j s
              ∙ rw (c, node_get-lookup t.root j h.sorted) (lookup-insert j q x (entries t.root) e),
        ))

  -- Of a balanced and sorted tree, `tree_put` refuses a key that is there and changes nothing then;
  -- it puts any other key. The tree stays balanced and sorted with the right number of nodes; its
  -- key is found with the new node or with the old one, and every other key as before.
  pub tree_put-Puts : (t : Tree V) (q : ℕ) (x : V) → IsValid t → Puts t q x (tree_put t q x)
  tree_put-Puts t q x h = elim (Option-cases (lookup q (entries t.root))) [
    | inl e ↦ put_new t q x h e
    | inr (w, e) ↦ put_old t q x w h e
  ]

  abbrev pub Removes : Tree V → ℕ → Tree V → Type ℓ
  Removes t q t' =
      (tree_remove t q ≡ some (tree_get t q, t'))
      × IsValid t'
      × ((j : ℕ) → tree_get t' j ≡ (if j == q then none else tree_get t j))

  counted_lem : (o : Option V) (n m : ℕ) → n + found o ≡ m → counted o m ≡ n
  unfolding counted
  counted_lem none n m e = omega arith
  counted_lem (some v) n m e = omega arith

  remove_some :
      (t : Tree V) (q : ℕ) (x : Option V) (p : Node V)
      → node_remove t.root q ≡ some (x, p)
      → tree_remove t q ≡ some (x, record t { root = p; node_num = counted x t.node_num })
  unfolding tree_remove
  remove_some t q x p e = rw (e, tree_remove) refl

  -- Of a balanced and sorted tree, `tree_remove` never splits the nil node; it gives the node of
  -- the key, if there is one, and a balanced and sorted tree with the right number of nodes, in
  -- which this key is not found and every other key is found as before.
  pub tree_remove-Removes : (t : Tree V) (q : ℕ) → IsValid t → (t' : Tree V) × Removes t q t'
  unfolding tree_get
  tree_remove-Removes t q h =
      let (x, p, e, sh) = node_remove-Shrinks t.root q h.balanced in
      let (f, c) = node_remove-entries t.root q x p h.sorted e in
      let s : IsSorted (entries p) = rw c (delete-IsSorted q (entries t.root) h.sorted) in
      let g : node_get t.root q ≡ x = node_get-lookup t.root q h.sorted ∙ sym f in
      (
        record t { root = p; node_num = counted x t.node_num },
        (
          rw g (remove_some t q x p e),
          record {
            balanced = sh.0;
            sorted = s;
            counts =
                rw (f, h.counts, c)
                  (counted_lem (lookup q (entries t.root)) (length (delete q (entries t.root)))
                    (length (entries t.root)) (length-delete q (entries t.root)));
          },
          λ j.
              node_get-lookup p j s
              ∙ rw (c, node_get-lookup t.root j h.sorted)
                  (lookup-delete j q (entries t.root) h.sorted),
        ),
      )

  pub height_lem :
      (t : Tree V) → IsValid t → 2 ^ height t.root ≤ (t.node_num + 1) * (t.node_num + 1)
  height_lem t h =
      let a : height t.root ≤ level t.root + level t.root =
        ground (arith, height-level t.root h.balanced) in
      let b : 2 ^ level t.root ≤ t.node_num + 1 = rw (h.counts) (level-length t.root h.balanced) in
      le_trans (pow-le-pow_right (omega arith) a) (rw (power_twice (level t.root)) (mul-le-mul b b))

  -- The entries of a balanced and sorted tree are in the order of their keys and are just what
  -- `tree_get` finds; `tree_first` is the first of them, and the traversal calls its callback for
  -- one after the other until it says to stop.
  pub in_order {μ} :
      {S : Type μ} (t : Tree V) (callback : V → S → Bool × S) (s : S)
      → IsValid t
      → IsSorted (entries t.root)
        × ((j : ℕ) → tree_get t j ≡ lookup j (entries t.root))
        × (tree_first t ≡ first (entries t.root))
        × (traverse callback t.root s ≡ visit callback (entries t.root) s)
  unfolding tree_first tree_get
  in_order t callback s h = (
    h.sorted,
    λ j. node_get-lookup t.root j h.sorted,
    first-entries t.root,
    traverse-visit callback t.root s,
  )

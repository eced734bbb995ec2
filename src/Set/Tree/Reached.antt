-- ===== src/Set/Tree/Reached.antt =====
-- The trees that the operations make.
use eotan.Prelude.{ℕ, ◌+◌, ◌*◌, ◌^◌, ◌≤◌, ◌≡◌, refl, Option, some}
use eotan.Set.Tree.{Tree, tree_create, tree_get, tree_put, tree_remove}
use eotan.Set.Tree.Entries.{entries}
use eotan.Set.Tree.Balance.{IsBalanced}
use eotan.Set.Tree.Height.{height}
use eotan.Set.Tree.Laws.{IsValid, tree_put-Puts, tree_remove-Removes, height_lem}

module _ {ℓ} {V : Type ℓ} where
  pub data Reached : Tree V → Type ℓ where
    created : Reached tree_create
    put : (t : Tree V) (q : ℕ) (x : V) → Reached t → Reached (tree_put t q x).1
    removed :
        (t t' : Tree V) (q : ℕ) (x : Option V)
        → Reached t
        → tree_remove t q ≡ some (x, t')
        → Reached t'

  create-IsValid : IsValid {V = V} tree_create
  unfolding tree_create IsBalanced entries
  create-IsValid = record { balanced = tt; sorted = tt; counts = refl }

  Reached-IsValid : (t : Tree V) → Reached t → IsValid t
  Reached-IsValid t created = create-IsValid
  Reached-IsValid t (put u q x r) = (tree_put-Puts u q x (Reached-IsValid u r)).0
  Reached-IsValid t (removed u t' q x r e) =
      let (w, p) = tree_remove-Removes u q (Reached-IsValid u r) in
      let same : t' ≡ w = cc in rw same p.1

  -- Every tree that `tree_create`, `tree_put` and `tree_remove` make, in any order and with any
  -- keys, is balanced and sorted and has the right number of nodes; 2 to the power of its height is
  -- at most (n + 1) squared where it has n nodes; and `tree_remove` of any key never splits its nil
  -- node and gives such a tree again.
  pub Reached-height :
      (t : Tree V)
      → Reached t
      → IsValid t
        × (2 ^ height t.root ≤ (t.node_num + 1) * (t.node_num + 1))
        × ((q : ℕ) → (x : Option V) × (t' : Tree V) × (tree_remove t q ≡ some (x, t')) × Reached t')
  Reached-height t r =
      let v = Reached-IsValid t r in
      (
        v,
        height_lem t v,
        λ q.
            let (t', p) = tree_remove-Removes t q v in
            (tree_get t q, t', p.0, removed t t' q (tree_get t q) r p.0),
      )

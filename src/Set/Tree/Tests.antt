-- ===== src/Set/Tree/Tests.antt =====
-- The tree at work, and its theorems at a concrete tree.
use eotan.Prelude.{ℕ, ◌+◌, ◌*◌, ◌^◌, ◌≤◌, ◌≡◌, refl, Bool, Option, some, ltb}
use eotan.Set.Tree.{
  leaf, node, Tree, level, right, node_skew, node_split, node_put, node_rebalance, rotate_all,
  skew_right, skew_right_right, split_right, lower, remove_here, node_remove, tree_create, tree_get,
  tree_put, tree_remove, tree_first, traverse,
}
use eotan.Set.Tree.Entries.{entries}
use eotan.Set.Tree.Assoc.{IsSorted, lookup}
use eotan.Set.Tree.Balance.{IsBalanced}
use eotan.Set.Tree.Height.{height, visit, first}
use eotan.Set.Tree.Reached.{Reached, created, put, removed, Reached-height}
use eotan.Set.Tree.Laws.{IsValid, Puts, Removes, tree_put-Puts, tree_remove-Removes, in_order}

-- 1, 2, 3 and 4 put in this order
abbrev four : Tree ℕ
four = record {
  root = node 2 (node 1 leaf 1 10 leaf) 2 20 (node 1 leaf 3 30 (node 1 leaf 4 40 leaf));
  node_num = 4;
}

puts_four :
    (tree_put (tree_put (tree_put (tree_put tree_create 1 10).1 2 20).1 3 30).1 4 40).1 ≡ four
unfolding tree_put node_put node_skew node_split level right tree_create
puts_four = refl

-- Removing the last key of a left side moves the root.
removes_left :
    tree_remove four 1
    ≡ some (
      some 10,
      record { root = node 2 (node 1 leaf 2 20 leaf) 3 30 (node 1 leaf 4 40 leaf); node_num = 3 },
    )
unfolding tree_remove node_remove node_rebalance rotate_all skew_right skew_right_right split_right
    lower node_skew node_split remove_here level right
removes_left = refl

create-IsValid : IsValid {V = ℕ} tree_create
unfolding tree_create IsBalanced entries
create-IsValid = record { balanced = tt; sorted = tt; counts = refl }

put-IsValid : (t : Tree ℕ) (q x : ℕ) → IsValid t → IsValid (tree_put t q x).1
put-IsValid t q x h = (tree_put-Puts t q x h).0

four-IsValid : IsValid four
unfolding tree_put node_put node_skew node_split level right tree_create
four-IsValid =
    put-IsValid _ 4 40
      (put-IsValid _ 3 30 (put-IsValid _ 2 20 (put-IsValid tree_create 1 10 create-IsValid)))

tree_put-Puts_example : Puts four 5 50 (tree_put four 5 50)
tree_put-Puts_example = tree_put-Puts four 5 50 four-IsValid

tree_remove-Removes_example : (t' : Tree ℕ) × Removes four 2 t'
tree_remove-Removes_example = tree_remove-Removes four 2 four-IsValid

-- The tree that is left of `four`.
abbrev three : Tree ℕ
three = record { root = node 2 (node 1 leaf 2 20 leaf) 3 30 (node 1 leaf 4 40 leaf); node_num = 3 }

four-Reached : Reached four
unfolding tree_put node_put node_skew node_split level right tree_create
four-Reached = put _ 4 40 (put _ 3 30 (put _ 2 20 (put tree_create 1 10 created)))

Reached-height_example :
    IsValid three
    × (2 ^ height three.root ≤ (three.node_num + 1) * (three.node_num + 1))
    × ((q : ℕ) → (x : Option ℕ) × (t' : Tree ℕ) × (tree_remove three q ≡ some (x, t')) × Reached t')
Reached-height_example =
    Reached-height three (removed four three 1 (some 10) four-Reached removes_left)

abbrev adds : ℕ → ℕ → Bool × ℕ
adds v s = (ltb 25 v, s + v)

in_order_example :
    IsSorted (entries four.root)
    × ((j : ℕ) → tree_get four j ≡ lookup j (entries four.root))
    × (tree_first four ≡ first (entries four.root))
    × (traverse adds four.root 0 ≡ visit adds (entries four.root) 0)
in_order_example = in_order four adds 0 four-IsValid
